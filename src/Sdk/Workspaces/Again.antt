-- ===== src/Sdk/Workspaces/Again.antt =====
-- A workspace that is made a second time.
use mathlib.Core.Path.{subst}
use metadata.Prelude.{
  ℕ, ◌≡◌, refl, sym, ap, ◌∙◌, Bool, true, false, List, [], ◌∷◌, ◌++◌, Option, none, some,
  Option-cases, if◌then◌else◌, inl, inr,
}
use metadata.Prelude.Texts.{Text}
use metadata.Prelude.Results.{Result, ok, err, Result-cases, steps-ok}
use metadata.Sdk.Retrying.{retried-last}
use metadata.Sdk.{retried, Context, Store, SdkError, workspace_exists}
use metadata.Sdk.Workspaces.{
  Workspace, context_type_name, named_context, create_context, get_context_id, id_or_zero,
  new_workspace,
}
use metadata.Sdk.Workspaces.Branches.{
  named_context-append, created-state, created-ok, new_context, property_names,
  create_context-failed, create_context-made, get_context_id-new, get_context_id-found,
  get_context_id-failed,
}

-- What the store documents of the workspaces' contexts: it has a list of them and gives all of them,
-- and if it answers with an id to a new one of their type, it had none of its name, and puts it at the
-- end with that id.
pub record Documented (st : Store) : Type 0 where
  pub contexts : st.State → List Context
  pub reads :
      (s : st.State) (cs : List Context)
      → st.get_contexts_by_type s context_type_name ≡ ok cs
      → cs ≡ contexts s
  pub puts :
      (s t : st.State) (names : List Text) (c : Context) (id : ℕ)
      → (st.put_context_type s context_type_name names).1 ≡ ok c.type_id
      → (st.put_contexts t (c ∷ [])).1 ≡ ok id
      → (named_context st c.name (contexts t) ≡ none)
        × (contexts (st.put_contexts t (c ∷ [])).0 ≡ contexts t ++ record c { id = some id } ∷ [])

module _ (st : Store) where
  -- The workspace's name is found among the contexts, with its id.
  abbrev IsNamed : Text → ℕ → List Context → Type 0
  IsNamed name id cs =
      (c : Context) × (named_context st name cs ≡ some c) × (id_or_zero st c.id ≡ id)

  module _ (d : Documented st) where
    create_context-IsNamed :
        (s : st.State) (name : Text) (description labels : Option Text) (id : ℕ)
        → (create_context st s name description labels).1 ≡ ok id
        → IsNamed name id (d.contexts (create_context st s name description labels).0)
    create_context-IsNamed s name description labels id h =
        let names = property_names st in
        let put_type = λ (t : st.State). st.put_context_type t context_type_name names in
        elim (Result-cases (retried st put_type s).1) [
          | inr (x, q) ↦ absurd (cc (create_context-failed st s name description labels x q, h))
          | inl (type_id, q) ↦
              let made = create_context-made st s name description labels type_id q in
              let c = new_context st type_id name description labels in
              let put = λ (t : st.State). st.put_contexts t (c ∷ []) in
              let s1 = (retried st put_type s).0 in
              let (s0, typed) = retried-last st put_type s in
              let (t, last) = retried-last st put s1 in
              let works : (put t).1 ≡ ok id =
                sym (ap (λ p. p.1) last)
                ∙ created-ok st (retried st put s1) id (sym (ap (λ p. p.1) made) ∙ h) in
              let (new, all_put) = d.puts s0 t names c id (sym (ap (λ p. p.1) typed) ∙ q) works in
              let all : d.contexts (create_context st s name description labels).0
                  ≡ d.contexts t ++ record c { id = some id } ∷ [] =
                ap (λ p. d.contexts p.0) made
                ∙ ap d.contexts (created-state st (retried st put s1))
                ∙ ap (λ p. d.contexts p.0) last
                ∙ all_put in
              (
                record c { id = some id },
                ap (named_context st name) all
                    ∙ named_context-append st name (d.contexts t) (record c { id = some id }) refl
                        new,
                refl,
              )
        ]

    get_context_id-IsNamed :
        (s : st.State) (name : Text) (description labels : Option Text) (reuse : Bool) (id : ℕ)
        → (get_context_id st s name description labels reuse).1 ≡ ok id
        → IsNamed name id (d.contexts (get_context_id st s name description labels reuse).0)
    get_context_id-IsNamed s name description labels reuse id h =
        elim (Result-cases (st.get_contexts_by_type s context_type_name)) [
          | inr (x, q) ↦
              absurd (
                cc
                  (ap (λ p. p.1) (get_context_id-failed st s name description labels reuse x q), h))
          | inl (cs, q) ↦ elim (Option-cases (named_context st name cs)) [
            | inl f ↦
                let same = get_context_id-new st s name description labels reuse cs q f in
                subst (λ p. IsNamed name id (d.contexts p.0)) (sym same)
                  (create_context-IsNamed s name description labels id
                    (sym (ap (λ p. p.1) same) ∙ h))
            | inr (c, f) ↦
                reused reuse c (ap (named_context st name) (sym (d.reads s cs q)) ∙ f)
                  (get_context_id-found st s name description labels reuse cs c q f)
          ]
        ]
      where
        reused :
            (b : Bool) (c : Context)
            → named_context st name (d.contexts s) ≡ some c
            → get_context_id st s name description labels reuse ≡ (
                if b
                then (s, ok (id_or_zero st c.id))
                else (s, err (workspace_exists name (id_or_zero st c.id))))
            → IsNamed name id (d.contexts (get_context_id st s name description labels reuse).0)
        reused true c f e =
            subst (λ p. IsNamed name id (d.contexts p.0)) (sym e) (c, f, cc (ap (λ p. p.1) e, h))
        reused false c f e = absurd (cc (ap (λ p. p.1) e, h))

    named-again :
        (s : st.State) (name : Text) (description labels : Option Text) (id : ℕ) (cs : List Context)
        → st.get_contexts_by_type s context_type_name ≡ ok cs
        → IsNamed name id (d.contexts s)
        → (new_workspace st s name description labels true ≡ (
          s,
          ok (record { name = name; description = description; labels = labels; context_id = id }),
        ))
          × (new_workspace st s name description labels false ≡ (s, err (workspace_exists name id)))
    unfolding new_workspace
    named-again s name description labels id cs q (c, f, i) =
        let found = λ (reuse : Bool).
          get_context_id-found st s name description labels reuse cs c q
            (ap (named_context st name) (d.reads s cs q) ∙ f) in
        (rw (found true, i) refl, rw (found false, i) refl)

-- Once a workspace has been made, whether it was there before or not, one that is made under its name
-- has the same context if it may be there already, whatever its description and labels are, and is
-- refused with the id of that context if it may not. Either way the store stays as it is. The store
-- is taken to do what it documents, and to answer when its contexts are read again.
pub new_workspace-again :
    (st : Store) (d : Documented st) (s : st.State) (name : Text)
    (description labels description' labels' : Option Text) (reuse : Bool) (w : Workspace)
    (cs : List Context)
    → (new_workspace st s name description labels reuse).1 ≡ ok w
    → st.get_contexts_by_type (new_workspace st s name description labels reuse).0 context_type_name
      ≡ ok cs
    → (new_workspace st
          (new_workspace st s name description labels reuse).0
          name
          description'
          labels'
          true
        ≡ (
          (new_workspace st s name description labels reuse).0,
          ok (record w { description = description'; labels = labels' }),
        ))
      × (new_workspace st
            (new_workspace st s name description labels reuse).0
            name
            description'
            labels'
            false
          ≡ (
            (new_workspace st s name description labels reuse).0,
            err (workspace_exists name w.context_id),
          ))
unfolding new_workspace
new_workspace-again st d s name description labels description' labels' reuse w cs made read =
    let (id, got, last) =
      steps-ok (get_context_id st s name description labels reuse).1
        (λ id.
          ok (record { name = name; description = description; labels = labels; context_id = id }))
        made in
    let again =
      named-again st d (get_context_id st s name description labels reuse).0 name description'
        labels' id cs read (get_context_id-IsNamed st d s name description labels reuse id got) in
    let same : record { name = name; description = description; labels = labels; context_id = id }
        ≡ w =
      inner last in
    (
      again.0
          ∙ ap
              (λ v. (
                (get_context_id st s name description labels reuse).0,
                ok (record v { description = description'; labels = labels' }),
              ))
              same,
      again.1
          ∙ ap
              (λ v. (
                (get_context_id st s name description labels reuse).0,
                err (workspace_exists name v.context_id),
              ))
              same,
    )
  where
    inner : {v w : Workspace} → ◌≡◌ {A = Result SdkError Workspace} (ok v) (ok w) → v ≡ w
    inner e = cc
