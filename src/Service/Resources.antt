-- ===== src/Service/Resources.antt =====
-- service/service.go: the handlers of artifacts and executions.
pub mod Creating
use metadata.Prelude.{Bool, List, [], ◌∷◌, Option, none, some, is_some, if◌then◌else◌}
use metadata.Prelude.Texts.{Text, text, text_eq}
use metadata.Prelude.Results.{Result, ok, err, map_err, ◌>>=◌}
use metadata.Value.{is_empty}
use metadata.Service.{
  Kind, ℤ, pos, TypeMessage, Resource, Store, Error, store_error, unspecified, id_specified,
  unresolved_type, not_single, not_implemented, types_collection,
}
use metadata.Service.Names.{trim_prefix}
use metadata.Service.Ids.{id_in, name_of}
use metadata.Service.Types.{get_resource_type}

abbrev pub single {ℓ} : {A : Type ℓ} → List A → Result {0, ℓ} Error A
single (a ∷ []) = ok a
single _ = err not_single

-- `aType.GetId()`
abbrev pub get_id : Option ℤ → ℤ
get_id none = pos 0
get_id (some id) = id

abbrev pub no_record : Text
no_record = text "Cannot find any record"

-- No record at all is an empty list.
abbrev pub or_no_record {ℓ} :
    {A : Type ℓ} → Result {0, ℓ} Text (List A) → Result {0, ℓ} Error (List A)
or_no_record (ok xs) = ok xs
or_no_record (err e) = if text_eq e no_record then ok [] else err (store_error e)

module _ (st : Store) where
  open st use {State, Rest}

  unfoldable pub get_one : Kind → State → ℤ → Result Error (Resource Rest)
  get_one k s id = map_err store_error (st.get_by_id k s (id ∷ [])) >>= single

  -- `getStoredArtifact` and `getExecution`.
  unfoldable pub get_stored : Kind → State → Text → Result Error (Resource Rest)
  unfolding id_in get_one
  get_stored k s name = id_in k name >>= get_one k s

  -- The resource with the type that its parent names.
  unfoldable pub checked :
      Kind → State → Text → Option (Resource Rest) → Result Error (Resource Rest)
  unfolding get_resource_type
  checked k s parent none = err unspecified
  checked k s parent (some r) =
      if is_some r.id then err id_specified else elim (get_resource_type st k s parent) [
        | err e ↦ err (unresolved_type parent e)
        | ok t ↦ ok (record r { type_id = some (get_id t.id) })
      ]

  -- What follows the writing: the name of the new resource, and the resource read back by it.
  unfoldable pub read_back :
      Kind → State → Text → Result Text (List ℤ) → Result Error (Resource Rest)
  unfolding get_stored
  read_back k s parent ids =
      map_err store_error ids >>= single >>= λ id. get_stored k s (name_of k parent id)

  -- `CreateArtifact` and `CreateExecution`.
  unfoldable pub create :
      Kind → State → Text → Option (Resource Rest) → State × Result Error (Resource Rest)
  unfolding checked read_back
  create k s parent req = elim (checked k s parent req) [
    | err e ↦ (s, err e)
    | ok r ↦ let (s', ids) = st.put k s (r ∷ []) in (s', read_back k s' parent ids)
  ]

  -- `ListArtifacts` and `ListExecutions`.
  unfoldable pub list : Kind → State → Text → Result Error (List (Resource Rest))
  list k s name = or_no_record (
      if is_empty name
      then st.get_all k s
      else st.get_by_type k s (trim_prefix name (types_collection k)))

  -- `DeleteArtifact` and `DeleteExecution`.
  unfoldable pub delete : Kind → State → Text → State × Result Error (Unit {0})
  delete k s name = (s, err not_implemented)
