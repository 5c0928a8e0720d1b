-- ===== src/Service.antt =====
-- service/service.go and service/metadata_store.go: the messages, the store behind the service, and
-- the errors that the service answers with. Artifacts and executions are handled by two copies of
-- the same code, which differ in their words; here they are one code with a `Kind`. The store is an
-- argument. What the service does not read of an artifact or execution is the store's `Rest`.
pub mod Names
pub mod Ids
pub mod Types
pub mod Resources
pub mod Events
use metadata.Prelude.{ℕ, Bool, List, Option}
use metadata.Prelude.Texts.{Text, text}
use metadata.Prelude.Results.{Result}

pub data Kind : Type 0 where
  artifact execution : Kind

-- `negsuc n` is -(n + 1).
pub data ℤ : Type 0 where
  pos negsuc : ℕ → ℤ

pub data PropertyType : Type 0 where
  int_type double_type string_type : PropertyType

-- `ArtifactType` and `ExecutionType`.
pub record TypeMessage : Type 0 where
  pub id : Option ℤ
  pub name : Text
  pub properties : List (Text × PropertyType)

pub record PutTypeOptions : Type 0 where
  pub all_fields_must_match : Bool
  pub can_add_fields : Bool

-- `Artifact` and `Execution`.
pub record Resource {ℓ} (Rest : Type ℓ) : Type ℓ where
  pub id : Option ℤ
  pub type_id : Option ℤ
  pub rest : Rest

pub record Event : Type 0 where
  pub artifact_id : ℤ
  pub execution_id : ℤ

-- `MetadataStore`: reads, and the writes that give the next state, each with the store's own error.
-- The events come along with the error.
pub record Store : Type 1 where
  pub State : Type 0
  pub Rest : Type 0
  pub put_type : Kind → State → TypeMessage → PutTypeOptions → State × Result Text ℤ
  pub get_type : Kind → State → Text → Result Text TypeMessage
  pub get_types : Kind → State → Result Text (List TypeMessage)
  pub put : Kind → State → List (Resource Rest) → State × Result Text (List ℤ)
  pub get_by_id : Kind → State → List ℤ → Result Text (List (Resource Rest))
  pub get_all : Kind → State → Result Text (List (Resource Rest))
  pub get_by_type : Kind → State → Text → Result Text (List (Resource Rest))
  pub put_events : State → List Event → State × Result Text (Unit {0})
  pub get_events : Kind → State → List ℤ → List Event × Option Text

pub data Error : Type 0 where
  store_error : Text → Error
  unspecified id_specified not_implemented : Error
  unresolved_type : Text → Error → Error
  malformed_name unparsed_id : Text → Error
  not_single : Error
  empty_type_name invalid_type_name invalid_namespace : Text → Error
  in_events : Kind → Error → Error

-- The words in which the two copies differ.
abbrev pub types_collection : Kind → Text
types_collection artifact = text "artifact_types/"
types_collection execution = text "execution_types/"

abbrev pub word : Kind → Text
word artifact = text "artifacts"
word execution = text "executions"
