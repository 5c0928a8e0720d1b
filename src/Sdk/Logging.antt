-- ===== src/Sdk/Logging.antt =====
-- sdk/python/kubeflow/metadata/metadata.py: `Execution`, which is put into the store when it is made,
-- and logs artifacts as its inputs and outputs. An artifact that is logged gets its id; it is given
-- back beside the result, since it keeps the id where a later step fails.
pub mod Duplicates
pub mod Storing
pub mod Apart
use metadata.Prelude.{
  ℕ, Bool, true, false, List, [], ◌∷◌, ◌++◌, Option, none, some, is_some, if◌then◌else◌,
}
use metadata.Prelude.Texts.{Text, text}
use metadata.Prelude.Results.{Result, ok, err, map_err, ◌>>=◌, lookup, insert}
use metadata.Sdk.{
  retried, Pb, Event, Direction, input, output, Link, attribution, association, Store, PropertyMap,
  string, optional, SdkError, store_error, invalid_artifact_type, invalid_artifact_id, reserved_key,
  workspace_property_name, run_property_name, del_none_properties, Artifact,
}
use metadata.Sdk.Workspaces.{Workspace}

-- An execution that has been made. `run` is the name of its run.
pub record Execution : Type 0 where
  pub id : ℕ
  pub workspace : Workspace
  pub run : Option Text

abbrev pub with_run : Option Text → PropertyMap → PropertyMap
with_run none custom = custom
with_run (some run) custom = insert run_property_name (string run) custom

-- The workspace and the run as custom properties.
unfoldable pub with_groups : Text → Option Text → PropertyMap → PropertyMap
unfolding insert
with_groups workspace run custom =
    with_run run (insert workspace_property_name (string workspace) custom)

-- `serialized`.
unfoldable pub serialized :
    (type_id : ℕ)
    → (name create_time : Text) → (description : Option Text) → Workspace
    → Option Text
    → Pb
unfolding del_none_properties with_groups
serialized type_id name create_time description w run = record {
  id = none;
  type_id = some type_id;
  uri = [];
  properties = del_none_properties (
      (text "name", string name)
      ∷ (text "create_time", string create_time)
      ∷ (text "description", optional description)
      ∷ []);
  custom_properties = with_groups w.name run [];
}

abbrev pub reserved : PropertyMap → Option Text
reserved custom =
    if is_some (lookup workspace_property_name custom)
    then some workspace_property_name
    else if is_some (lookup run_property_name custom)
    then some run_property_name
    else none

-- The first artifact of the store that the artifact's class finds to be the same.
unfoldable pub duplicate : (Pb → Pb → Bool) → Pb → List Pb → Option Pb
duplicate duplicates ser [] = none
duplicate duplicates ser (pb ∷ rest) =
    if duplicates ser pb then some pb else duplicate duplicates ser rest

-- The artifact as it is put into the store.
abbrev pub prepared : Execution → ℕ → Artifact → Pb
prepared e type_id a = record a.serialization {
  type_id = some type_id;
  custom_properties = with_groups e.workspace.name e.run a.serialization.custom_properties;
}

-- An artifact that is to be logged for an execution.
pub record Request : Type 0 where
  pub execution : Execution
  pub artifact : Artifact
  pub direction : Direction

module _ (st : Store) where
  open st use {State}

  abbrev pub Logged : Type 0
  Logged = State × Artifact × Result SdkError (Unit {0})

  abbrev pub linked : Artifact → State × Result Text (Unit {0}) → Logged
  linked a (s, r) = (s, a, map_err store_error r)

  -- `_check_artifact_id`.
  unfoldable pub check_artifact_id : State → ℕ → Result SdkError (Unit {0})
  check_artifact_id s id = elim (st.get_artifacts_by_id s (id ∷ [])) [
    | ok (_ ∷ []) ↦ ok tt
    | _ ↦ err invalid_artifact_id
  ]

  -- What is put into the store for a new artifact.
  unfoldable pub put_new : Execution → State → Artifact → Pb → Logged
  put_new e s a ser =
      let (s', r) = retried st (λ t. st.put_artifacts t (ser ∷ [])) s in
      elim r [
        | err x ↦ (s', a, err (store_error x))
        | ok id ↦
            linked (record a { id = some id })
              (retried st (λ t. st.put_links t (attribution e.workspace.context_id id ∷ [])) s')
      ]

  -- The look for a duplicate by the artifact's uri.
  unfoldable pub deduplicate : Execution → State → Artifact → Pb → Logged
  unfolding duplicate put_new
  deduplicate e s a ser = elim (st.get_artifacts_by_uri s a.uri) [
    | err x ↦ (s, a, err (store_error x))
    | ok pbs ↦ elim (duplicate a.duplicates ser pbs) [
      | some pb ↦ (s, record a { id = pb.id }, ok tt)
      | none ↦ put_new e s a ser
    ]
  ]

  -- What is done for an artifact without an id, whose type has the given id.
  unfoldable pub log_new : Execution → State → Artifact → ℕ → Logged
  unfolding deduplicate lookup with_groups
  log_new e s a type_id = elim (reserved a.serialization.custom_properties) [
    | some key ↦ (s, a, err (reserved_key key))
    | none ↦ deduplicate e s a (prepared e type_id a)
  ]

  -- `_log`.
  unfoldable pub log : Execution → State → Artifact → Logged
  unfolding check_artifact_id log_new
  log e s a = elim (st.get_artifact_type s a.type_name) [
    | err _ ↦ (s, a, err invalid_artifact_type)
    | ok type_id ↦ elim a.id [
      | some id ↦ (s, a, check_artifact_id s id)
      | none ↦ log_new e s a type_id
    ]
  ]

  abbrev pub event_put : Artifact → State × Result Text (Unit {0}) → Logged
  event_put a (s, r) = (s, a, map_err store_error r)

  abbrev pub id_or_zero : Option ℕ → ℕ
  id_or_zero none = 0
  id_or_zero (some id) = id

  abbrev pub then_event : Execution → Direction → Logged → Logged
  then_event e d (s, a, err x) = (s, a, err x)
  then_event e d (s, a, ok _) = event_put a (
      retried st
        (λ t.
          st.put_events t
            (record { artifact_id = id_or_zero a.id; execution_id = e.id; type = d } ∷ []))
        s)

  unfoldable pub log_input : Execution → State → Artifact → Logged
  unfolding log
  log_input e s a = then_event e input (log e s a)

  unfoldable pub log_output : Execution → State → Artifact → Logged
  unfolding log
  log_output e s a = then_event e output (log e s a)

  -- The constructor of `Execution`.
  unfoldable pub new_execution :
      State
      → (name create_time : Text) → Option Text
      → Workspace
      → Option Text
      → State × Result SdkError Execution
  unfolding serialized
  new_execution s name create_time description w run =
      elim (st.get_execution_type s (text "kubeflow.org/alpha/execution")) [
        | err x ↦ (s, err (store_error x))
        | ok type_id ↦
            let (s', r) =
              retried st
                (λ t.
                  st.put_executions t (serialized type_id name create_time description w run ∷ []))
                s in
            elim r [
              | err x ↦ (s', err (store_error x))
              | ok id ↦
                  let (s'', linked_to) =
                    retried st (λ t. st.put_links t (association w.context_id id ∷ [])) s' in
                  (
                    s'',
                    map_err store_error linked_to >>= λ _.
                        ok (record { id = id; workspace = w; run = run }),
                  )
            ]
      ]

  unfoldable pub log_request : State → Request → Logged
  unfolding log_input log_output
  log_request s r = elim r.direction [
    | input ↦ log_input r.execution s r.artifact
    | output ↦ log_output r.execution s r.artifact
  ]

  -- Artifacts logged one after another, whatever becomes of each.
  unfoldable pub log_all : State → List Request → State
  unfolding log_request
  log_all s [] = s
  log_all s (r ∷ rs) = log_all (log_request s r).0 rs
