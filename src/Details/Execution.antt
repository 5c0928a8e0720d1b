-- ===== src/Details/Execution.antt =====
-- pages/ExecutionDetails.tsx: the page's state and `load`. `parse_int` is the built-in function,
-- `type_error` what the engine throws for `events[type].push` where `events[type]` is undefined, and
-- `get_resource_property` of @kubeflow/frontend is asked for a resource that may be undefined, as
-- `getExecutionsList()[0]` may be.
pub mod Outcomes
pub mod Order
use metadata.Prelude.{ℕ, Bool, true, false, List, [], ◌∷◌, ◌++◌, Option, none, some, if◌then◌else◌}
use metadata.Prelude.Texts.{Text, text}
use metadata.Value.{Value, truthy}
use metadata.Resources.{Resource, PropertyName, TypeMap, component_id, task_id}
use metadata.Utils.Messages.{Thrown, Failure, service_error_to_string, error, other}
use metadata.Shell.Host.{Host, ToolbarProps, update_toolbar}
use metadata.Shell.Links.{executions_page}
use metadata.Shell.Page.{show_page_error}
use metadata.Details.Events.{Event, Events, parse_events_by_type}
use metadata.Details.Artifact.{Reply, answered, thrown, proper_type_name, text_of, not_identified}

pub record ExecutionDetails : Type 0 where
  pub execution : Option Resource
  pub events : Option Events
  pub artifact_type_map : Option TypeMap
  pub host : Host

unfoldable pub initial_toolbar : (Text → Text) → Text → Text → ToolbarProps
initial_toolbar title_case full_type_name id = record {
  actions = [];
  breadcrumbs = record { display_name = text "Executions"; href = executions_page } ∷ [];
  page_title =
      some (proper_type_name title_case full_type_name ++ (text " " ++ (id ++ text " details")));
}

pub data TypesReply : Type 0 where
  types : TypeMap → TypesReply
  rejected : Failure → TypesReply

-- The part of `load` that runs beside the rest, when the types arrive.
unfoldable pub types_arrived : ExecutionDetails → TypesReply → ExecutionDetails
types_arrived p (types m) = record p { artifact_type_map = some m }
types_arrived p (rejected err) = record p {
  host = show_page_error p.host (text "Failed to fetch artifact types") err none;
}

-- What `parseInt` gives.
pub data Parsed : Type 0 where
  not_a_number : Parsed
  negative natural : ℕ → Parsed

abbrev pub is_id : Parsed → Bool
is_id (natural n) = true
is_id _ = false

unfoldable pub page_error : ExecutionDetails → Text → ExecutionDetails
page_error p message = record p { host = show_page_error p.host message (other none) none }

abbrev pub first_of : List Resource → Option Resource
first_of [] = none
first_of (e ∷ rest) = some e

unfoldable pub invalid_id : ExecutionDetails → Text → ExecutionDetails
invalid_id p id =
    let message = text "Invalid execution id: " ++ id in
    record p { host = show_page_error p.host message (error message) none }

-- The two checks of the number of executions; neither returns.
unfoldable pub check_count : Text → Text → ExecutionDetails → List Resource → ExecutionDetails
check_count full_type_name id p [] = page_error p (not_identified full_type_name id)
check_count full_type_name id p (e ∷ []) = p
check_count full_type_name id p (e ∷ f ∷ rest) =
    page_error p (text "Found multiple executions with ID: " ++ id)

unfoldable pub set_title : ExecutionDetails → Value → ExecutionDetails
set_title p execution_name = record p {
  host =
      update_toolbar p.host
        (record { actions = none; breadcrumbs = none; page_title = some (text_of execution_name) });
}

module _ (parse_int : Text → Parsed) (type_error : Thrown)
    (get_resource_property : Option Resource → PropertyName → Bool → Reply Value) where
  unfoldable pub show_events :
      ExecutionDetails → Option Resource → Option (List Event) → ExecutionDetails
  show_events p execution response = elim (parse_events_by_type response) [
    | none ↦ page_error p (service_error_to_string type_error)
    | some events ↦ record p { execution = execution; events = some events }
  ]

  -- `getResourceProperty(...) || getResourceProperty(...)`.
  unfoldable pub execution_name : Option Resource → Reply Value
  execution_name e = elim (get_resource_property e component_id false) [
    | thrown err ↦ thrown err
    | answered v ↦ if truthy v then answered v else get_resource_property e task_id true
  ]

  unfoldable pub show_execution :
      ExecutionDetails → Option Resource → Option (List Event) → ExecutionDetails
  show_execution p execution response = elim (execution_name execution) [
    | thrown err ↦ page_error p (service_error_to_string err)
    | answered v ↦ show_events (set_title p v) execution response
  ]

  -- The reply holds both answers, since `Promise.all` waits for both and fails when one does.
  unfoldable pub load_reply :
      Text
      → Text
      → ExecutionDetails
      → Reply (List Resource × Option (List Event))
      → ExecutionDetails
  load_reply full_type_name id p (thrown err) = page_error p (service_error_to_string err)
  load_reply full_type_name id p (answered (executions, response)) =
      show_execution (check_count full_type_name id p executions) (first_of executions) response

  unfoldable pub load :
      Text
      → Text
      → ExecutionDetails
      → Reply (List Resource × Option (List Event))
      → ExecutionDetails
  load full_type_name id p reply =
      if is_id (parse_int id) then load_reply full_type_name id p reply else invalid_id p id
