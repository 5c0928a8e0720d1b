-- ===== src/Details/View/Sections.antt =====
-- From the store's events of an execution to the sections of the execution page.
use metadata.Prelude.{
  ℕ, ◌≡◌, refl, ◌∙◌, sym, inl, inr, Option-cases, Bool, true, false, List, [], ◌∷◌, Option, none,
  some,
}
use metadata.Prelude.Texts.{Text, text}
use metadata.Value.{Value}
use metadata.Resources.{Resource, PropertyName, TypeMap}
use metadata.Utils.Messages.{Thrown}
use metadata.Details.Artifact.{Reply, answered, proper_type_name}
use metadata.Details.Events.{
  Event, Events, EventType, parse_events_by_type, declared_input, input, declared_output, output,
}
use metadata.Details.Events.Collected.{ids_of, has_unlisted, at_type, parse_events_by_type-collects}
use metadata.Details.Execution.{ExecutionDetails, Parsed, is_id, load, execution_name}
use metadata.Details.Execution.Outcomes.{load-first}
use metadata.Details.View.{Section, execution_shown, sections, render_execution}

abbrev pub section : Text → List ℕ → Option TypeMap → Section
section title ids types = record { title = title; artifact_ids = ids; artifact_type_map = types }

events-ids :
    (list : List Event) (events : Events) (u : EventType)
    → parse_events_by_type (some list) ≡ some events
    → has_unlisted list ≡ false
    → events u ≡ ids_of u list
events-ids list events u parsed fine =
    let collected = parse_events_by_type-collects list u in
    let h : at_type (some events) u ≡ some (ids_of u list) =
      (λ k. at_type (sym parsed k) u) ∙ collected ∙ rw fine refl in
    cc

parsed-is_some :
    (list : List Event)
    → has_unlisted list ≡ false
    → (events : Events) × (parse_events_by_type (some list) ≡ some events)
parsed-is_some list fine = elim (Option-cases (parse_events_by_type (some list))) [
  | inl e ↦
      let k : at_type none input ≡ some (ids_of input list) =
        (λ j. at_type (sym e j) input) ∙ parse_events_by_type-collects list input ∙ rw fine refl in
      absurd (cc)
  | inr (events, e) ↦ (events, e)
]

module _ (parse_int : Text → Parsed) (type_error : Thrown)
    (get_resource_property : Option Resource → PropertyName → Bool → Reply Value)
    (title_case : Text → Text) where
  -- A load of the execution page with a valid id, a title that can be read and events of listed types
  -- only makes it show the first execution with four sections: the artifacts of its declared inputs,
  -- inputs, declared outputs and outputs, each in the order of the events.
  pub load-sections :
      (full_type_name id : Text) (p : ExecutionDetails) (a : Resource) (rest : List Resource)
      (list : List Event) (v : Value)
      → is_id (parse_int id) ≡ true
      → execution_name parse_int type_error get_resource_property (some a) ≡ answered v
      → has_unlisted list ≡ false
      → let q =
          load parse_int type_error get_resource_property full_type_name id p
            (answered (a ∷ rest, some list)) in
        render_execution title_case full_type_name q
        ≡ execution_shown (proper_type_name title_case full_type_name) a (
            section (text "Declared Inputs") (ids_of declared_input list) q.artifact_type_map
            ∷ section (text "Inputs") (ids_of input list) q.artifact_type_map
            ∷ section (text "Declared Outputs") (ids_of declared_output list) q.artifact_type_map
            ∷ section (text "Outputs") (ids_of output list) q.artifact_type_map
            ∷ [])
  unfolding render_execution sections
  load-sections full_type_name id p a rest list v valid named fine =
      let (events, parsed) = parsed-is_some list fine in
      let (e, f, _) =
        load-first parse_int type_error get_resource_property full_type_name id p a rest (some list)
          v events valid named parsed in
      rw
        (
          render_execution,
          e,
          f,
          sections,
          events-ids list events declared_input parsed fine,
          events-ids list events input parsed fine,
          events-ids list events declared_output parsed fine,
          events-ids list events output parsed fine,
        )
        refl
