-- ===== src/Sdk.antt =====
-- sdk/python/kubeflow/metadata/metadata.py: the messages and the store that the Python client works
-- with, and the artifacts that can be logged. The store is an argument; `retry`
-- makes a call again where it fails. A property holds a text or an integer; floating numbers are left out.
pub mod Retrying
pub mod Workspaces
pub mod Logging
pub mod Listed
use metadata.Prelude.{
  ℕ, zero, suc, Bool, true, false, ◌&&◌, List, [], ◌∷◌, Option, none, some, filter_by, not, ◌==◌,
}
use metadata.Prelude.Texts.{Text, text, text_eq}
use metadata.Prelude.Results.{Result, lookup, ok, err}
use metadata.Value.{is_empty}

pub data PropertyValue : Type 0 where
  string : Text → PropertyValue
  int : ℕ → PropertyValue

abbrev pub PropertyMap : Type 0
PropertyMap = List (Text × PropertyValue)

-- `v.string_value`, which is the empty text where there is none.
abbrev pub string_value : PropertyValue → Text
string_value (string t) = t
string_value (int n) = []

-- `mlpb.Artifact`.
pub record Pb : Type 0 where
  pub id : Option ℕ
  pub type_id : Option ℕ
  pub uri : Text
  pub properties : PropertyMap
  pub custom_properties : PropertyMap

pub record Context : Type 0 where
  pub id : Option ℕ
  pub type_id : ℕ
  pub name : Text
  pub properties : PropertyMap

pub data Direction : Type 0 where
  input output : Direction

pub record Event : Type 0 where
  pub artifact_id : ℕ
  pub execution_id : ℕ
  pub type : Direction

pub data Link : Type 0 where
  attribution : (context_id artifact_id : ℕ) → Link
  association : (context_id execution_id : ℕ) → Link

-- The calls of `metadata_store.MetadataStore` that the client makes. An error is an exception.
-- `retries` tells how often a call that begins in a state is made again at most, until the time that
-- the `retry` of `retrying` gives it is over.
pub record Store : Type 1 where
  pub State : Type 0
  pub retries : State → ℕ
  pub get_artifact_type : State → Text → Result Text ℕ
  pub get_execution_type : State → Text → Result Text ℕ
  pub get_artifacts_by_type : State → Text → Result Text (List Pb)
  pub get_artifacts_by_uri : State → Text → Result Text (List Pb)
  pub get_artifacts_by_id : State → List ℕ → Result Text (List Pb)
  pub put_artifacts : State → List Pb → State × Result Text ℕ
  pub put_executions : State → List Pb → State × Result Text ℕ
  pub put_events : State → List Event → State × Result Text (Unit {0})
  pub put_links : State → List Link → State × Result Text (Unit {0})
  pub get_contexts_by_type : State → Text → Result Text (List Context)
  pub put_context_type : State → Text → List Text → State × Result Text ℕ
  pub put_contexts : State → List Context → State × Result Text ℕ

-- A call that is made again where it fails.
unfoldable pub retry : {S A : Type 0} → ℕ → (S → S × Result Text A) → S → S × Result Text A
retry zero f s = f s
retry (suc n) f s = let (s', r) = f s in elim r [ ok a ↦ (s', ok a) | err e ↦ retry n f s' ]

-- `_retry`, for the calls that change the store. One that only reads gives the same again.
unfoldable pub retried :
    (st : Store) {A : Type 0}
    → (st.State → st.State × Result Text A)
    → st.State
    → st.State × Result Text A
unfolding retry
retried st f s = retry (st.retries s) f s

abbrev pub workspace_property_name : Text
workspace_property_name = text "__kf_workspace__"

abbrev pub run_property_name : Text
run_property_name = text "__kf_run__"

abbrev pub all_meta_property_name : Text
all_meta_property_name = text "__ALL_META__"

pub data SdkError : Type 0 where
  store_error : Text → SdkError
  workspace_exists : Text → ℕ → SdkError
  invalid_artifact_type invalid_artifact_id : SdkError
  reserved_key : Text → SdkError
  unreadable_meta : SdkError

-- What `_del_none_properties` leaves out.
abbrev pub is_none_value : PropertyValue → Bool
is_none_value (string t) = is_empty t
is_none_value (int n) = n == 0

unfoldable pub del_none_properties : PropertyMap → PropertyMap
del_none_properties properties = filter_by (λ entry. not (is_none_value entry.1)) properties

-- An optional text as a protobuf string.
abbrev pub optional : Option Text → PropertyValue
optional none = string []
optional (some t) = string t

-- `a.get(key) == b.get(key)`.
abbrev pub same_value : Option PropertyValue → Option PropertyValue → Bool
same_value none none = true
same_value (some (string a)) (some (string b)) = text_eq a b
same_value (some (int m)) (some (int n)) = m == n
same_value _ _ = false

abbrev pub same_id : Option ℕ → Option ℕ → Bool
same_id none none = true
same_id (some m) (some n) = m == n
same_id _ _ = false

-- `is_duplicated` of `DataSet` and of `Model`.
unfoldable pub is_duplicated : Pb → Pb → Bool
unfolding lookup
is_duplicated a b =
    same_id a.type_id b.type_id
    && text_eq a.uri b.uri
    && same_value (lookup (text "name") a.properties) (lookup (text "name") b.properties)
    && same_value (lookup (text "version") a.properties) (lookup (text "version") b.properties)
    && same_value (lookup workspace_property_name a.custom_properties)
        (lookup workspace_property_name b.custom_properties)

-- An artifact of one of the classes, or of one of the user's: what its class gives, and its id.
pub record Artifact : Type 0 where
  pub type_name : Text
  pub uri : Text
  pub id : Option ℕ
  pub serialization : Pb
  pub duplicates : Pb → Pb → Bool

-- `serialization` of `DataSet`. `all_meta` is the JSON of all of its fields.
unfoldable pub data_set :
    (uri name create_time : Text)
    → (description query version owner : Option Text) → (all_meta : Text) → Artifact
unfolding del_none_properties is_duplicated
data_set uri name create_time description query version owner all_meta = record {
  type_name = text "kubeflow.org/alpha/data_set";
  uri = uri;
  id = none;
  serialization = record {
    id = none;
    type_id = none;
    uri = uri;
    properties = del_none_properties (
        (text "name", string name)
        ∷ (text "create_time", string create_time)
        ∷ (text "description", optional description)
        ∷ (text "query", optional query)
        ∷ (text "version", optional version)
        ∷ (text "owner", optional owner)
        ∷ (all_meta_property_name, string all_meta)
        ∷ []);
    custom_properties = [];
  };
  duplicates = is_duplicated;
}

-- `serialization` of `Model`.
unfoldable pub model :
    (uri name create_time : Text)
    → (description model_type version owner : Option Text) → (all_meta : Text) → Artifact
unfolding del_none_properties is_duplicated
model uri name create_time description model_type version owner all_meta = record {
  type_name = text "kubeflow.org/alpha/model";
  uri = uri;
  id = none;
  serialization = record {
    id = none;
    type_id = none;
    uri = uri;
    properties = del_none_properties (
        (text "name", string name)
        ∷ (text "create_time", string create_time)
        ∷ (text "description", optional description)
        ∷ (text "model_type", optional model_type)
        ∷ (text "version", optional version)
        ∷ (text "owner", optional owner)
        ∷ (all_meta_property_name, string all_meta)
        ∷ []);
    custom_properties = [];
  };
  duplicates = is_duplicated;
}

-- `serialization` of `Metrics`, which takes over the `is_duplicated` of `Artifact`.
unfoldable pub metrics :
    (uri name create_time : Text)
    → (description metrics_type data_set_id model_id owner : Option Text) → (all_meta : Text)
    → Artifact
unfolding del_none_properties
metrics uri name create_time description metrics_type data_set_id model_id owner all_meta = record {
  type_name = text "kubeflow.org/alpha/metrics";
  uri = uri;
  id = none;
  serialization = record {
    id = none;
    type_id = none;
    uri = uri;
    properties = del_none_properties (
        (text "name", string name)
        ∷ (text "create_time", string create_time)
        ∷ (text "description", optional description)
        ∷ (text "metrics_type", optional metrics_type)
        ∷ (text "data_set_id", optional data_set_id)
        ∷ (text "model_id", optional model_id)
        ∷ (text "owner", optional owner)
        ∷ (all_meta_property_name, string all_meta)
        ∷ []);
    custom_properties = [];
  };
  duplicates = λ a b. false;
}
