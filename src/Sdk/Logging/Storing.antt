-- ===== src/Sdk/Logging/Storing.antt =====
-- What the store has after an artifact has been put into it, and that it has it twice where the answer
-- of the first call is lost.
use mathlib.Core.Path.{subst}
use metadata.Prelude.{
  ℕ, suc, ◌≡◌, refl, ap, ◌∙◌, true, List, [], ◌∷◌, ◌++◌, Option, none, some, arith, inl, inr,
}
use metadata.Prelude.Texts.{Text, text, text_eq_refl}
use metadata.Prelude.Results.{Result, ok, err, Result-cases, lookup}
use metadata.Sdk.{
  retried, Pb, Link, attribution, Store, Artifact, is_duplicated, same_id, same_value, string, int,
  PropertyValue, workspace_property_name,
}
use metadata.Sdk.Retrying.{retried-kept, retried-again}
use metadata.Sdk.Logging.{Execution, put_new, linked}
use metadata.Sdk.Logging.Duplicates.{AreApart}

module _ (st : Store) (contents : st.State → List Pb)
    (links : (s : st.State) (ls : List Link) → contents (st.put_links s ls).0 ≡ contents s) where
  linked-contents : (a : Artifact) (p : st.State × Result Text (Unit {0})) → (linked st a p).0 ≡ p.0
  linked-contents a (s, r) = refl

  -- New or not, the artifact's links leave the contents as they are.
  pub put_new-contents :
      (e : Execution) (s : st.State) (a : Artifact) (ser : Pb)
      → contents (put_new st e s a ser).0
        ≡ contents (retried st (λ t. st.put_artifacts t (ser ∷ [])) s).0
  unfolding put_new
  put_new-contents e s a ser =
      let (s', r) = retried st (λ t. st.put_artifacts t (ser ∷ [])) s in
      elim (Result-cases r) [
        | inl (id, q) ↦
            let ls = attribution e.workspace.context_id id ∷ [] in
            rw (q, put_new)
              (ap contents (
                  linked-contents (record a { id = some id })
                    (retried st (λ t. st.put_links t ls) s'))
                ∙ retried-kept st (λ t. st.put_links t ls) s' contents (λ t. links t ls))
        | inr (x, q) ↦ rw (q, put_new) refl
      ]

  same_id_refl : (o : Option ℕ) → same_id o o ≡ true
  same_id_refl none = refl
  same_id_refl (some n) = ground arith

  same_value_refl : (o : Option PropertyValue) → same_value o o ≡ true
  same_value_refl none = refl
  same_value_refl (some (string t)) = text_eq_refl t
  same_value_refl (some (int n)) = ground arith

  is_duplicated_refl :
      (a : Pb) (i j : ℕ)
      → is_duplicated (record a { id = some i }) (record a { id = some j }) ≡ true
  unfolding is_duplicated
  is_duplicated_refl a i j =
      rw
        (
          same_id_refl a.type_id,
          text_eq_refl a.uri,
          same_value_refl (lookup (text "name") a.properties),
          same_value_refl (lookup (text "version") a.properties),
          same_value_refl (lookup workspace_property_name a.custom_properties),
        )
        refl

  together :
      (pbs : List Pb) (a b : Pb)
      → is_duplicated b a ≡ true
      → AreApart ((pbs ++ a ∷ []) ++ b ∷ [])
      → ⊥
  together [] a b same h = let apart = h.0.0 in cc
  together (p ∷ pbs) a b same h = together pbs a b same h.1

  -- Where the store has put an artifact in its place, but the answer is lost, and the call is made again
  -- and answered, the store has two artifacts that are duplicates of each other.
  pub put_new-lost :
      (e : Execution) (s : st.State) (a : Artifact) (ser : Pb) (n i j : ℕ) (x : Text)
      → st.retries s ≡ suc n
      → (st.put_artifacts s (ser ∷ [])).1 ≡ err x
      → contents (st.put_artifacts s (ser ∷ [])).0 ≡ contents s ++ record ser { id = some i } ∷ []
      → (st.put_artifacts (st.put_artifacts s (ser ∷ [])).0 (ser ∷ [])).1 ≡ ok j
      → contents (st.put_artifacts (st.put_artifacts s (ser ∷ [])).0 (ser ∷ [])).0
        ≡ contents (st.put_artifacts s (ser ∷ [])).0 ++ record ser { id = some j } ∷ []
      → ¬ AreApart (contents (put_new st e s a ser).0)
  put_new-lost e s a ser n i j x again lost stored works stored_again h =
      let f = λ (t : st.State). st.put_artifacts t (ser ∷ []) in
      let all : contents (put_new st e s a ser).0
          ≡ (contents s ++ record ser { id = some i } ∷ []) ++ record ser { id = some j } ∷ [] =
        put_new-contents e s a ser
        ∙ ap (λ p. contents p.0) (retried-again st f s n x j again lost works)
        ∙ stored_again
        ∙ ap (λ pbs. pbs ++ record ser { id = some j } ∷ []) stored in
      together (contents s) (record ser { id = some i }) (record ser { id = some j })
        (is_duplicated_refl ser j i) (subst AreApart all h)
