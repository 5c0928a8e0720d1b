-- ===== src/Schemas/Register/Registered.antt =====
-- When RegisterSchemas fails.
use mathlib.Core.Path.{subst}
use metadata.Prelude.{ℕ, ◌≡◌, ◌≢◌, List, [], ◌∷◌, ◌++◌, Option, none, some}
use metadata.Prelude.Texts.{Text}
use metadata.Prelude.Results.{Result, ok, err}
use metadata.Service.{Kind, Store}
use metadata.Schemas.{SchemaSet}
use metadata.Schemas.Register.{RegisterError, planned, register_type, register_all}

module _ (st : Store) (fuel : ℕ) (ss : SchemaSet) where
  abbrev Outcome : Type 0
  Outcome = Option (st.State × Result RegisterError (List Text))

  -- The loop has not got to the end of the schemas.
  abbrev Fails : Outcome → Type 0
  Fails none = Unit {0}
  Fails (some (s, err e)) = Unit {0}
  Fails (some (s, ok types)) = ⊥

  after_registering :
      (r : Option (st.State × Result RegisterError (Unit {0}))) (next : st.State → Outcome)
      → ((s : st.State) → Fails (next s))
      → Fails
          (elim r [ none ↦ none | some (s', err e) ↦ some (s', err e) | some (s', ok _) ↦ next s' ])
  after_registering none next h = tt
  after_registering (some (s, err e)) next h = tt
  after_registering (some (s, ok u)) next h = h s

  module _ (id : Text) (ids : List Text) (e : RegisterError)
      (refused : planned fuel ss id ≡ some (err e)) where
    at_refused :
        (s : st.State) (types : List Text) → Fails (register_all st fuel ss (id ∷ ids) s types)
    unfolding register_all
    at_refused s types = rw (refused, register_all) tt

    before_refused :
        (before : List Text) (s : st.State) (types : List Text)
        → Fails (register_all st fuel ss (before ++ id ∷ ids) s types)
    unfolding register_all
    before_refused [] s types = at_refused s types
    before_refused (i ∷ before) s types =
        one (planned fuel ss i) (before_refused before s types)
          (λ s' name. before_refused before s' (types ++ name ∷ []))
      where
        one :
            (plan : Option (Result RegisterError (Option (Kind × Text))))
            → Fails (register_all st fuel ss (before ++ id ∷ ids) s types)
            → ((s' : st.State) (name : Text)
                → Fails (register_all st fuel ss (before ++ id ∷ ids) s' (types ++ name ∷ [])))
            → Fails (elim plan [
              | none ↦ none
              | some (err e) ↦ some (s, err e)
              | some (ok none) ↦ register_all st fuel ss (before ++ id ∷ ids) s types
              | some (ok (some (k, name))) ↦ elim (register_type st fuel k s ss i name) [
                | none ↦ none
                | some (s', err e) ↦ some (s', err e)
                | some (s', ok _) ↦
                    register_all st fuel ss (before ++ id ∷ ids) s' (types ++ name ∷ [])
              ]
            ])
        one none h k = tt
        one (some (err x)) h k = tt
        one (some (ok none)) h k = h
        one (some (ok (some (kind, name)))) h k =
            after_registering (register_type st fuel kind s ss i name)
              (λ s'. register_all st fuel ss (before ++ id ∷ ids) s' (types ++ name ∷ []))
              (λ s'. k s' name)

-- A schema that has a name for its type and no category, wherever it stands among the schemas, keeps
-- RegisterSchemas from succeeding, whatever the metadata service answers.
register_all-refused :
    (st : Store) (fuel : ℕ) (ss : SchemaSet) (before after types : List Text) (id : Text)
    (e : RegisterError) (s s' : st.State) (out : List Text)
    → planned fuel ss id ≡ some (err e)
    → register_all st fuel ss (before ++ id ∷ after) s types ≢ some (s', ok out)
register_all-refused st fuel ss before after types id e s s' out refused h =
    subst (Fails st fuel ss) h (before_refused st fuel ss id after e refused before s types)
