-- ===== src/Details/Execution/Outcomes.antt =====
-- What a load of the execution page leaves.
use metadata.Prelude.{◌≡◌, refl, ◌∙◌, Bool, true, false, List, [], ◌∷◌, Option, none, some}
use metadata.Prelude.Texts.{Text}
use metadata.Value.{Value}
use metadata.Resources.{Resource, PropertyName, component_id}
use metadata.Utils.Messages.{Thrown, service_error_to_string}
use metadata.Shell.Host.{update_banner, update_toolbar}
use metadata.Shell.Page.{show_page_error}
use metadata.Details.Artifact.{Reply, answered, thrown, text_of}
use metadata.Details.Events.{Event, Events, parse_events_by_type}
use metadata.Details.Execution.{
  ExecutionDetails, Parsed, is_id, load, load_reply, show_execution, execution_name, check_count,
  page_error, show_events, set_title,
}

module _ (parse_int : Text → Parsed) (type_error : Thrown)
    (get_resource_property : Option Resource → PropertyName → Bool → Reply Value) where
  load-valid :
      (full_type_name id : Text) (p : ExecutionDetails)
      (r : Reply (List Resource × Option (List Event)))
      → is_id (parse_int id) ≡ true
      → load parse_int type_error get_resource_property full_type_name id p r
        ≡ load_reply parse_int type_error get_resource_property full_type_name id p r
  unfolding load
  load-valid full_type_name id p r valid = rw valid refl

  show_execution-thrown :
      (p : ExecutionDetails) (execution : Option Resource) (response : Option (List Event))
      (e : Thrown)
      → execution_name parse_int type_error get_resource_property execution ≡ thrown e
      → show_execution parse_int type_error get_resource_property p execution response
        ≡ page_error p (service_error_to_string e)
  unfolding show_execution
  show_execution-thrown p execution response e h = rw (h, show_execution) refl

  show_execution-named :
      (p : ExecutionDetails) (execution : Option Resource) (response : Option (List Event))
      (v : Value)
      → execution_name parse_int type_error get_resource_property execution ≡ answered v
      → show_execution parse_int type_error get_resource_property p execution response
        ≡ show_events parse_int type_error get_resource_property (set_title p v) execution response
  unfolding show_execution
  show_execution-named p execution response v h = rw (h, show_execution) refl

  execution_name-thrown :
      (execution : Option Resource) (e : Thrown)
      → get_resource_property execution component_id false ≡ thrown e
      → execution_name parse_int type_error get_resource_property execution ≡ thrown e
  unfolding execution_name
  execution_name-thrown execution e h = rw (h, execution_name) refl

  -- Where `getResourceProperty` throws for undefined, a load that finds no execution ends with that
  -- error in the banner, and not with the message that there is no such execution.
  pub load-missing :
      (full_type_name id : Text) (p : ExecutionDetails) (response : Option (List Event))
      (e : Thrown)
      → is_id (parse_int id) ≡ true
      → get_resource_property none component_id false ≡ thrown e
      → load parse_int type_error get_resource_property full_type_name id p
          (answered ([], response))
        ≡ page_error p (service_error_to_string e)
  unfolding load_reply check_count page_error show_page_error update_banner
  load-missing full_type_name id p response e valid h =
      load-valid full_type_name id p (answered ([], response)) valid
      ∙ show_execution-thrown (check_count full_type_name id p []) none response e
          (execution_name-thrown none e h)

  show_events-parsed :
      (p : ExecutionDetails) (a : Resource) (response : Option (List Event)) (v : Value)
      (events : Events)
      → parse_events_by_type response ≡ some events
      → let o =
          show_events parse_int type_error get_resource_property
            (set_title p v)
            (some a)
            response in
        (o.execution ≡ some a)
        × (o.events ≡ some events)
        × (o.host.toolbar_props.page_title ≡ some (text_of v))
  unfolding show_events set_title update_toolbar
  show_events-parsed p a response v events parsed = rw (parsed, show_events) (refl, refl, refl)

  -- With a valid id and an answer of at least one execution whose title and events can be read, the
  -- page shows the first execution and its events, also where the banner says that there are several.
  pub load-first :
      (full_type_name id : Text) (p : ExecutionDetails) (a : Resource) (rest : List Resource)
      (response : Option (List Event)) (v : Value) (events : Events)
      → is_id (parse_int id) ≡ true
      → execution_name parse_int type_error get_resource_property (some a) ≡ answered v
      → parse_events_by_type response ≡ some events
      → let q =
          load parse_int type_error get_resource_property full_type_name id p
            (answered (a ∷ rest, response)) in
        (q.execution ≡ some a)
        × (q.events ≡ some events)
        × (q.host.toolbar_props.page_title ≡ some (text_of v))
  unfolding load_reply
  load-first full_type_name id p a rest response v events valid h parsed =
      rw (load-valid full_type_name id p (answered (a ∷ rest, response)) valid) (
        rw (show_execution-named (check_count full_type_name id p (a ∷ rest)) (some a) response v h)
          (show_events-parsed (check_count full_type_name id p (a ∷ rest)) a response v events
            parsed))
