-- ===== src/Sdk/Logging/Apart.antt =====
-- No data set and no model is stored twice.
use mathlib.Core.Path.{subst}
use metadata.Prelude.{
  ℕ, ◌≡◌, ◌⊎◌, refl, sym, ap, ◌∙◌, List, [], ◌∷◌, ◌++◌, none, some, All, filter_by, Option-cases,
  inl, inr,
}
use metadata.Prelude.Texts.{Text, text_eq}
use metadata.Prelude.Results.{Result, ok, err, Result-cases}
use metadata.Sdk.Retrying.{retried-kept, retried-once}
use metadata.Sdk.Logging.Storing.{put_new-contents}
use metadata.Sdk.{
  retried, Pb, Event, Direction, input, output, Link, Store, Artifact, is_duplicated,
}
use metadata.Sdk.Logging.{
  Execution, Request, log_request, log_all, id_or_zero, prepared, reserved, duplicate, put_new,
  deduplicate, log_new, log, log_input, log_output, Logged, then_event, event_put,
}
use metadata.Sdk.Logging.Duplicates.{
  IsNew, AreApart, AreApart-append, with_id-IsNew, duplicate-IsNew,
}

-- What the store documents of artifacts: it has a list of them, finds all of those with a uri, puts a
-- new one at the end with an id of its own, or none where it answers with an error, and leaves them
-- as they are when it is given links or events.
pub record Documented (st : Store) : Type 0 where
  pub contents : st.State → List Pb
  pub finds :
      (s : st.State) (uri : Text) (pbs : List Pb)
      → st.get_artifacts_by_uri s uri ≡ ok pbs
      → pbs ≡ filter_by (λ a. text_eq a.uri uri) (contents s)
  pub puts :
      (s : st.State) (a : Pb) (id : ℕ)
      → (st.put_artifacts s (a ∷ [])).1 ≡ ok id
      → contents (st.put_artifacts s (a ∷ [])).0 ≡ contents s ++ record a { id = some id } ∷ []
  pub refuses :
      (s : st.State) (a : Pb) (x : Text)
      → (st.put_artifacts s (a ∷ [])).1 ≡ err x
      → contents (st.put_artifacts s (a ∷ [])).0 ≡ contents s
  pub links : (s : st.State) (ls : List Link) → contents (st.put_links s ls).0 ≡ contents s
  pub events : (s : st.State) (es : List Event) → contents (st.put_events s es).0 ≡ contents s

-- An artifact of the class of data sets or of models.
pub record IsStandard (a : Artifact) : Type 0 where
  pub class : a.duplicates ≡ is_duplicated
  pub its_uri : a.serialization.uri ≡ a.uri

direction_cases : (d : Direction) → (d ≡ input) ⊎ (d ≡ output)
direction_cases input = inl refl
direction_cases output = inr refl

module _ (st : Store) (d : Documented st) where
  event_put-contents :
      (a : Artifact) (p : st.State × Result Text (Unit {0})) → (event_put st a p).0 ≡ p.0
  event_put-contents a (s, r) = refl

  put_new-AreApart :
      (e : Execution) (s : st.State) (a : Artifact) (ser : Pb)
      → AreApart (d.contents s)
      → IsNew ser (d.contents s)
      → AreApart (d.contents (put_new st e s a ser).0)
  put_new-AreApart e s a ser h n =
      subst AreApart (sym (put_new-contents st d.contents d.links e s a ser))
        (elim (retried-once st (λ t. st.put_artifacts t (ser ∷ [])) s d.contents
          (λ t x. d.refuses t ser x)) [
            | inl nothing ↦ subst AreApart (sym nothing) h
            | inr (t, id, same, works, last) ↦
                let all : d.contents (retried st (λ t. st.put_artifacts t (ser ∷ [])) s).0
                    ≡ d.contents s ++ record ser { id = some id } ∷ [] =
                  ap (λ p. d.contents p.0) last
                  ∙ d.puts t ser id works
                  ∙ ap (λ pbs. pbs ++ record ser { id = some id } ∷ []) same in
                subst AreApart (sym all) (
                  AreApart-append (d.contents s) (record ser { id = some id }) h
                    (with_id-IsNew ser id (d.contents s) n))
          ])

  module _ (e : Execution) (s : st.State) (a : Artifact) (standard : IsStandard a)
      (h : AreApart (d.contents s)) where
    found_none :
        (ser : Pb) (pbs : List Pb)
        → ser.uri ≡ a.uri
        → st.get_artifacts_by_uri s a.uri ≡ ok pbs
        → duplicate a.duplicates ser pbs ≡ none
        → IsNew ser (d.contents s)
    found_none ser pbs u got none_of = duplicate-IsNew ser a.uri (d.contents s) u (
        ap (duplicate is_duplicated ser) (sym (d.finds s a.uri pbs got))
        ∙ (λ i. duplicate (sym standard.class i) ser pbs)
        ∙ none_of)

    deduplicate-AreApart :
        (ser : Pb) → ser.uri ≡ a.uri → AreApart (d.contents (deduplicate st e s a ser).0)
    unfolding deduplicate
    deduplicate-AreApart ser u = elim (Result-cases (st.get_artifacts_by_uri s a.uri)) [
      | inr (x, q) ↦ rw (q, deduplicate) h
      | inl (pbs, q) ↦ elim (Option-cases (duplicate a.duplicates ser pbs)) [
        | inr (pb, f) ↦ rw (q, deduplicate, f) h
        | inl f ↦ rw (q, deduplicate, f) (put_new-AreApart e s a ser h (found_none ser pbs u q f))
      ]
    ]

    log_new-AreApart : (type_id : ℕ) → AreApart (d.contents (log_new st e s a type_id).0)
    unfolding log_new
    log_new-AreApart type_id = elim (Option-cases (reserved a.serialization.custom_properties)) [
      | inr (key, r) ↦ rw (r, log_new) h
      | inl r ↦ rw (r, log_new) (deduplicate-AreApart (prepared e type_id a) standard.its_uri)
    ]

    log-AreApart : AreApart (d.contents (log st e s a).0)
    unfolding log
    log-AreApart = elim (Result-cases (st.get_artifact_type s a.type_name)) [
      | inr (x, q) ↦ rw (q, log) h
      | inl (type_id, q) ↦ elim (Option-cases a.id) [
        | inr (id, i) ↦ rw (q, log, i) h
        | inl i ↦ rw (q, log, i) (log_new-AreApart type_id)
      ]
    ]

  then_event-contents :
      (e : Execution) (dir : Direction) (l : Logged st)
      → d.contents (then_event st e dir l).0 ≡ d.contents l.0
  then_event-contents e dir (s, a, err x) = refl
  then_event-contents e dir (s, a, ok u) =
      at_end (record { artifact_id = id_or_zero st a.id; execution_id = e.id; type = dir } ∷ [])
    where
      at_end :
          (es : List Event)
          → d.contents (event_put st a (retried st (λ t. st.put_events t es) s)).0 ≡ d.contents s
      at_end es =
          ap d.contents (event_put-contents a (retried st (λ t. st.put_events t es) s))
          ∙ retried-kept st (λ t. st.put_events t es) s d.contents (λ t. d.events t es)

  log_request-AreApart :
      (s : st.State) (r : Request)
      → IsStandard r.artifact
      → AreApart (d.contents s)
      → AreApart (d.contents (log_request st s r).0)
  unfolding log_request log_input log_output
  log_request-AreApart s r standard h =
      let logged = log-AreApart r.execution s r.artifact standard h in
      elim (direction_cases r.direction) [
        | inl q ↦
            rw (q, log_request)
              (subst AreApart
                (sym (then_event-contents r.execution input (log st r.execution s r.artifact)))
                logged)
        | inr q ↦
            rw (q, log_request)
              (subst AreApart
                (sym (then_event-contents r.execution output (log st r.execution s r.artifact)))
                logged)
      ]

-- However many data sets and models are logged one after another as inputs and outputs, and however
-- often a call fails and is made again: the store never has two artifacts that are duplicates of each
-- other, of the same type, uri, name, version and workspace, if it had none. The store is taken to do
-- what it documents; a call that fails has then stored nothing, so that no answer is lost on its way.
pub log_all-AreApart :
    (st : Store) (d : Documented st) (s : st.State) (rs : List Request)
    → All (λ r. IsStandard r.artifact) rs
    → AreApart (d.contents s)
    → AreApart (d.contents (log_all st s rs))
unfolding log_all
log_all-AreApart st d s [] standard h = h
log_all-AreApart st d s (r ∷ rs) standard h =
    log_all-AreApart st d (log_request st s r).0 rs standard.1
      (log_request-AreApart st d s r standard.0 h)
