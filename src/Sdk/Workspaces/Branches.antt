-- ===== src/Sdk/Workspaces/Branches.antt =====
-- What the steps that make a workspace give, one branch at a time.
use metadata.Prelude.{
  ℕ, ◌≡◌, refl, ap, ◌∙◌, Bool, true, false, List, [], ◌∷◌, ◌++◌, Option, none, some, Bool-cases,
  if◌then◌else◌, inl, inr,
}
use metadata.Prelude.Texts.{Text, text, text_eq, text_eq_refl}
use metadata.Prelude.Results.{Result, ok, err}
use metadata.Sdk.{retried, Context, Store, store_error, workspace_exists}
use metadata.Sdk.Workspaces.{
  context_type_name, named_context, given, created, create_context, get_context_id, id_or_zero,
}

module _ (st : Store) where
  pub named_context-append :
      (name : Text) (cs : List Context) (c : Context)
      → c.name ≡ name
      → named_context st name cs ≡ none
      → named_context st name (cs ++ c ∷ []) ≡ some c
  unfolding named_context
  named_context-append name [] c e h = rw (ap (λ n. text_eq n name) e ∙ text_eq_refl name) refl
  named_context-append name (x ∷ xs) c e h = elim (Bool-cases (text_eq x.name name)) [
    | inl same ↦ absurd (found (text_eq x.name name) same h)
    | inr other ↦ rw other (named_context-append name xs c e (later (text_eq x.name name) other h))
  ]
    where
      found : (b : Bool) → b ≡ true → (if b then some x else named_context st name xs) ≡ none → ⊥
      found true b h = cc
      found false b h = cc

      later :
          (b : Bool)
          → b ≡ false
          → (if b then some x else named_context st name xs) ≡ none
          → named_context st name xs ≡ none
      later true b h = cc
      later false b h = h

  pub created-state : (p : st.State × Result Text ℕ) → (created st p).0 ≡ p.0
  created-state (s, r) = refl

  pub created-ok : (p : st.State × Result Text ℕ) (id : ℕ) → (created st p).1 ≡ ok id → p.1 ≡ ok id
  created-ok (s, ok n) id h = cc
  created-ok (s, err x) id h = cc

  abbrev pub new_context : ℕ → Text → Option Text → Option Text → Context
  new_context type_id name description labels = record {
    id = none;
    type_id = type_id;
    name = name;
    properties = given st (text "description") description ++ given st (text "labels") labels;
  }

  abbrev pub property_names : List Text
  property_names = text "description" ∷ text "labels" ∷ []

  pub create_context-failed :
      (s : st.State) (name : Text) (description labels : Option Text) (x : Text)
      → (retried st (λ t. st.put_context_type t context_type_name property_names) s).1 ≡ err x
      → (create_context st s name description labels).1 ≡ err (store_error x)
  unfolding create_context
  create_context-failed s name description labels x q = rw (q, create_context) refl

  pub create_context-made :
      (s : st.State) (name : Text) (description labels : Option Text) (type_id : ℕ)
      → (retried st (λ t. st.put_context_type t context_type_name property_names) s).1 ≡ ok type_id
      → create_context st s name description labels
        ≡ created st (
            retried st
              (λ t. st.put_contexts t (new_context type_id name description labels ∷ []))
              (retried st (λ t. st.put_context_type t context_type_name property_names) s).0)
  unfolding create_context
  create_context-made s name description labels type_id q = rw (q, create_context) refl

  pub get_context_id-new :
      (s : st.State) (name : Text) (description labels : Option Text) (reuse : Bool)
      (cs : List Context)
      → st.get_contexts_by_type s context_type_name ≡ ok cs
      → named_context st name cs ≡ none
      → get_context_id st s name description labels reuse
        ≡ create_context st s name description labels
  unfolding get_context_id
  get_context_id-new s name description labels reuse cs q f = rw (q, get_context_id, f) refl

  pub get_context_id-found :
      (s : st.State) (name : Text) (description labels : Option Text) (reuse : Bool)
      (cs : List Context) (c : Context)
      → st.get_contexts_by_type s context_type_name ≡ ok cs
      → named_context st name cs ≡ some c
      → get_context_id st s name description labels reuse ≡ (
          if reuse
          then (s, ok (id_or_zero st c.id))
          else (s, err (workspace_exists name (id_or_zero st c.id))))
  unfolding get_context_id
  get_context_id-found s name description labels reuse cs c q f = rw (q, get_context_id, f) refl

  pub get_context_id-failed :
      (s : st.State) (name : Text) (description labels : Option Text) (reuse : Bool) (x : Text)
      → st.get_contexts_by_type s context_type_name ≡ err x
      → get_context_id st s name description labels reuse ≡ (s, err (store_error x))
  unfolding get_context_id
  get_context_id-failed s name description labels reuse x q = rw (q, get_context_id) refl
