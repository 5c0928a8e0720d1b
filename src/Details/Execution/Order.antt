-- ===== src/Details/Execution/Order.antt =====
-- The two answers that the execution page waits for, which arrive in either order: the types of
-- artifacts, and the execution with its events.
use metadata.Prelude.{
  ◌≡◌, refl, ◌∙◌, ap, sym, Bool, List, [], ◌∷◌, Option, some, Option-cases, Bool-cases, inl, inr,
}
use metadata.Prelude.Texts.{Text}
use metadata.Value.{Value}
use metadata.Resources.{Resource, PropertyName, TypeMap}
use metadata.Utils.Messages.{Thrown}
use metadata.Shell.Host.{no_banner, update_banner, update_toolbar}
use metadata.Shell.Page.{show_page_error}
use metadata.Details.Artifact.{Reply, answered, thrown}
use metadata.Details.Events.{Event, parse_events_by_type}
use metadata.Details.Execution.{
  ExecutionDetails, Parsed, is_id, TypesReply, types, rejected, types_arrived, load, load_reply,
  show_execution, execution_name, check_count, page_error, show_events, set_title, invalid_id,
  first_of,
}

-- The page without its banner.
abbrev pub without_banner : ExecutionDetails → ExecutionDetails
without_banner p = record p { host = record p.host { banner_props = no_banner } }

module _ (parse_int : Text → Parsed) (type_error : Thrown)
    (get_resource_property : Option Resource → PropertyName → Bool → Reply Value) where
  -- A page after `load` with other types in it before is the page with other types after.
  abbrev with_types : ExecutionDetails → Option TypeMap → ExecutionDetails
  with_types p m = record p { artifact_type_map = m }

  show_events-types :
      (p : ExecutionDetails) (m : Option TypeMap) (e : Option Resource) (r : Option (List Event))
      → show_events parse_int type_error get_resource_property (with_types p m) e r
        ≡ with_types (show_events parse_int type_error get_resource_property p e r) m
  unfolding show_events page_error
  show_events-types p m e r = elim (Option-cases (parse_events_by_type r)) [
    | inl h ↦ rw (h, show_events) refl
    | inr (events, h) ↦ rw (h, show_events) refl
  ]

  named-types :
      (p : ExecutionDetails) (m : Option TypeMap) (e : Option Resource) (r : Option (List Event))
      (x : Reply Value)
      → execution_name parse_int type_error get_resource_property e ≡ x
      → show_execution parse_int type_error get_resource_property (with_types p m) e r
        ≡ with_types (show_execution parse_int type_error get_resource_property p e r) m
  unfolding show_execution page_error set_title
  named-types p m e r (thrown err) h = rw (h, show_execution) refl
  named-types p m e r (answered v) h =
      rw (h, show_execution) (show_events-types (set_title p v) m e r)

  show_execution-types :
      (p : ExecutionDetails) (m : Option TypeMap) (e : Option Resource) (r : Option (List Event))
      → show_execution parse_int type_error get_resource_property (with_types p m) e r
        ≡ with_types (show_execution parse_int type_error get_resource_property p e r) m
  show_execution-types p m e r =
      named-types p m e r (execution_name parse_int type_error get_resource_property e) refl

  check_count-types :
      (full_type_name id : Text) (p : ExecutionDetails) (m : Option TypeMap) (es : List Resource)
      → check_count full_type_name id (with_types p m) es
        ≡ with_types (check_count full_type_name id p es) m
  unfolding check_count page_error
  check_count-types full_type_name id p m [] = refl
  check_count-types full_type_name id p m (e ∷ []) = refl
  check_count-types full_type_name id p m (e ∷ f ∷ es) = refl

  load_reply-types :
      (full_type_name id : Text) (p : ExecutionDetails) (m : Option TypeMap)
      (r : Reply (List Resource × Option (List Event)))
      → load_reply parse_int type_error get_resource_property full_type_name id (with_types p m) r
        ≡ with_types (load_reply parse_int type_error get_resource_property full_type_name id p r) m
  unfolding load_reply page_error
  load_reply-types full_type_name id p m (thrown err) = refl
  load_reply-types full_type_name id p m (answered (es, response)) =
      ap (λ q. show_execution parse_int type_error get_resource_property q (first_of es) response)
        (check_count-types full_type_name id p m es)
      ∙ show_execution-types (check_count full_type_name id p es) m (first_of es) response

  load-types :
      (full_type_name id : Text) (p : ExecutionDetails) (m : Option TypeMap)
      (r : Reply (List Resource × Option (List Event)))
      → load parse_int type_error get_resource_property full_type_name id (with_types p m) r
        ≡ with_types (load parse_int type_error get_resource_property full_type_name id p r) m
  unfolding load invalid_id
  load-types full_type_name id p m r = elim (Bool-cases (is_id (parse_int id))) [
    | inl h ↦ rw (h, load) (load_reply-types full_type_name id p m r)
    | inr h ↦ rw (h, load) refl
  ]

  show_events-banner :
      (p : ExecutionDetails) (e : Option Resource) (r : Option (List Event))
      → without_banner (show_events parse_int type_error get_resource_property p e r)
        ≡ without_banner
            (show_events parse_int type_error get_resource_property (without_banner p) e r)
  unfolding show_events page_error show_page_error update_banner
  show_events-banner p e r = elim (Option-cases (parse_events_by_type r)) [
    | inl h ↦ rw (h, show_events) refl
    | inr (events, h) ↦ rw (h, show_events) refl
  ]

  named-banner :
      (p : ExecutionDetails) (e : Option Resource) (r : Option (List Event)) (x : Reply Value)
      → execution_name parse_int type_error get_resource_property e ≡ x
      → without_banner (show_execution parse_int type_error get_resource_property p e r)
        ≡ without_banner
            (show_execution parse_int type_error get_resource_property (without_banner p) e r)
  unfolding show_execution page_error set_title update_toolbar show_page_error update_banner
  named-banner p e r (thrown err) h = rw (h, show_execution) refl
  named-banner p e r (answered v) h =
      rw (h, show_execution) (show_events-banner (set_title p v) e r)

  show_execution-banner :
      (p : ExecutionDetails) (e : Option Resource) (r : Option (List Event))
      → without_banner (show_execution parse_int type_error get_resource_property p e r)
        ≡ without_banner
            (show_execution parse_int type_error get_resource_property (without_banner p) e r)
  show_execution-banner p e r =
      named-banner p e r (execution_name parse_int type_error get_resource_property e) refl

  check_count-banner :
      (full_type_name id : Text) (p : ExecutionDetails) (es : List Resource)
      → without_banner (check_count full_type_name id p es)
        ≡ without_banner (check_count full_type_name id (without_banner p) es)
  unfolding check_count page_error show_page_error update_banner
  check_count-banner full_type_name id p [] = refl
  check_count-banner full_type_name id p (e ∷ []) = refl
  check_count-banner full_type_name id p (e ∷ f ∷ es) = refl

  load_reply-banner :
      (full_type_name id : Text) (p : ExecutionDetails)
      (r : Reply (List Resource × Option (List Event)))
      → without_banner (load_reply parse_int type_error get_resource_property full_type_name id p r)
        ≡ without_banner (
            load_reply parse_int type_error get_resource_property full_type_name id
              (without_banner p)
              r)
  unfolding load_reply page_error show_page_error update_banner
  load_reply-banner full_type_name id p (thrown err) = refl
  load_reply-banner full_type_name id p (answered (es, response)) =
      show_execution-banner (check_count full_type_name id p es) (first_of es) response
      ∙ ap
          (λ q.
            without_banner
              (show_execution parse_int type_error get_resource_property q (first_of es) response))
          (check_count-banner full_type_name id p es)
      ∙ sym (
          show_execution-banner (check_count full_type_name id (without_banner p) es) (first_of es)
            response)

  load-banner :
      (full_type_name id : Text) (p : ExecutionDetails)
      (r : Reply (List Resource × Option (List Event)))
      → without_banner (load parse_int type_error get_resource_property full_type_name id p r)
        ≡ without_banner
            (load parse_int type_error get_resource_property full_type_name id (without_banner p) r)
  unfolding load invalid_id show_page_error update_banner
  load-banner full_type_name id p r = elim (Bool-cases (is_id (parse_int id))) [
    | inl h ↦ rw (h, load) (load_reply-banner full_type_name id p r)
    | inr h ↦ rw (h, load) refl
  ]

  -- The answer with the types and the answer with the execution may arrive in either order: the page is
  -- the same in the end, but for the banner where the types are refused; and where they are not, also
  -- the banner is the same.
  pub load-types_arrived :
      (full_type_name id : Text) (p : ExecutionDetails)
      (r : Reply (List Resource × Option (List Event)))
      → ((t : TypesReply)
          → without_banner (
              types_arrived
                (load parse_int type_error get_resource_property full_type_name id p r)
                t)
            ≡ without_banner (
                load parse_int type_error get_resource_property full_type_name id
                  (types_arrived p t)
                  r))
        × ((m : TypeMap)
            → types_arrived
                (load parse_int type_error get_resource_property full_type_name id p r)
                (types m)
              ≡ load parse_int type_error get_resource_property full_type_name id
                  (types_arrived p (types m))
                  r)
  unfolding types_arrived show_page_error update_banner
  load-types_arrived full_type_name id p r =
      (stripped, λ m. sym (load-types full_type_name id p (some m) r))
    where
      stripped :
          (t : TypesReply)
          → without_banner (
              types_arrived
                (load parse_int type_error get_resource_property full_type_name id p r)
                t)
            ≡ without_banner (
                load parse_int type_error get_resource_property full_type_name id
                  (types_arrived p t)
                  r)
      stripped (types m) = ap without_banner (sym (load-types full_type_name id p (some m) r))
      stripped (rejected err) =
          load-banner full_type_name id p r
          ∙ sym (load-banner full_type_name id (types_arrived p (rejected err)) r)
