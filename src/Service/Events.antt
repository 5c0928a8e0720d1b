-- ===== src/Service/Events.antt =====
-- service/service.go: `CreateEvent` and `ListEvents`, with the artifacts and executions that the
-- events name.
pub mod Collected
pub mod Lost
use metadata.Prelude.{
  ℕ, ◌≡◌, refl, ◌↔◌, Bool, true, false, List, [], ◌∷◌, ◌++◌, Option, none, some, if◌then◌else◌,
  ◌==◌, arith,
}
use metadata.Prelude.Texts.{Text, text, starts_with}
use metadata.Prelude.Results.{Result, ok, err, map_err, ◌>>=◌}
use metadata.Service.{
  Kind, artifact, execution, word, ℤ, pos, negsuc, Resource, Event, Store, Error, store_error,
  unparsed_id, in_events,
}
use metadata.Service.Names.{trim_prefix}
use metadata.Service.Ids.{parse_int}
use metadata.Service.Resources.{get_one}

abbrev pub int_eq : ℤ → ℤ → Bool
int_eq (pos m) (pos n) = m == n
int_eq (negsuc m) (negsuc n) = m == n
int_eq _ _ = false

pub int_eq_iff : (a b : ℤ) → (int_eq a b ≡ true) ↔ (a ≡ b)
int_eq_iff (pos m) (pos n) = ground arith
int_eq_iff (negsuc m) (negsuc n) = ground arith
int_eq_iff _ _ = (λ e. cc, λ e. cc)

-- `artifactCollection` and `executionCollection`.
abbrev pub collection : Kind → Text
collection k = word k ++ (b'/' ∷ [])

-- `e.GetArtifactId()` and `e.GetExecutionId()`.
abbrev pub id_of : Kind → Event → ℤ
id_of artifact e = e.artifact_id
id_of execution e = e.execution_id

-- A map from ids; each is put in once.
unfoldable pub found {ℓ} : {A : Type ℓ} → ℤ → List (ℤ × A) → Option A
found id [] = none
found id ((i, a) ∷ m) = if int_eq i id then some a else found id m

abbrev pub kind_named : Text → Kind
kind_named name = if starts_with name (collection artifact) then artifact else execution

module _ (st : Store) where
  open st use {State, Rest}

  abbrev pub Found : Type 0
  Found = List (ℤ × Resource Rest)

  -- The loop of `getArtifactsInEvents` and of `getExecutionsInEvents` over the events.
  unfoldable pub collect : Kind → State → Found → List Event → Result Error Found
  unfolding found
  collect k s results [] = ok results
  collect k s results (e ∷ es) = elim (found (id_of k e) results) [
    | some a ↦ collect k s results es
    | none ↦ elim (get_one st k s (id_of k e)) [
      | err x ↦ err x
      | ok a ↦ collect k s ((id_of k e, a) ∷ results) es
    ]
  ]

  unfoldable pub get_in_events : Kind → State → List Event → Result Error Found
  unfolding collect
  get_in_events k s es = collect k s [] es

  pub record EventsResponse : Type 0 where
    pub events : List Event
    pub artifacts : Found
    pub executions : Found

  -- `CreateEvent`.
  unfoldable pub create_event : State → Event → State × Result Error (Unit {0})
  create_event s e = let (s', r) = st.put_events s (e ∷ []) in (s', map_err store_error r)

  -- The events of the id after the prefix. The error that the store gives is put into a variable of
  -- the inner block and is lost.
  unfoldable pub events_of : Kind → State → Text → Result Error (List Event)
  events_of k s name = elim (parse_int (trim_prefix name (collection k))) [
    | none ↦ err (unparsed_id name)
    | some id ↦ ok ((st.get_events k s (id ∷ [])).0)
  ]

  -- `ListEvents`.
  unfoldable pub list_events : State → Text → Result Error EventsResponse
  unfolding events_of get_in_events
  list_events s name = events_of (kind_named name) s name >>= λ es.
      map_err (in_events artifact) (get_in_events artifact s es) >>= λ found_artifacts.
      map_err (in_events execution) (get_in_events execution s es) >>= λ found_executions.
      ok (record { events = es; artifacts = found_artifacts; executions = found_executions })
