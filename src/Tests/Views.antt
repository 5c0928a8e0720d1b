-- ===== src/Tests/Views.antt =====
-- What the pages show, on small inputs.
use metadata.Prelude.{◌≡◌, refl, Bool, false, [], ◌∷◌, Option, none, some, arith}
use metadata.Prelude.Texts.{Text, text, text_eq}
use metadata.Value.{str}
use metadata.Json.{Json, Fields}
use metadata.Table.State.{CustomTable}
use metadata.Table.Events.{Reply, page_changed, request_sort, stay, start}
use metadata.Table.Events.{Started, page_changed_start}
use metadata.Table.State.{asc}
use metadata.Table.Schedule
use metadata.Table.Schedule.{World, Step, launched, received, handled}
use metadata.Tests.Filters.{builtins}
use metadata.Lists.Artifacts
use metadata.Lists.Artifacts.{artifact_columns}
use metadata.Lists.Artifacts.{ArtifactList}
use metadata.Lists.View.{artifact_table, table_of}
use metadata.Lists.View.Paging.{
  IsOnePage, AsksFirst, ListReach, here, next, artifacts, of_artifacts, reply_of, run-first_page,
}
use metadata.Details.Artifact.{ArtifactDetails, proper_type_name, answered}
use metadata.Details.Events.{declared_input, input, declared_output, output}
use metadata.Details.Events.Collected.{ids_of, has_unlisted}
use metadata.Details.Execution.{ExecutionDetails}
use metadata.Details.Execution
use metadata.Details.View.{execution_shown, render_execution}
use metadata.Details.View.Switching.{view_at, clicked, click-shows}
use metadata.Details.View.Sections.{section, load-sections}
use metadata.Widgets.ModelInfo.{object_entries}
use metadata.Tests.Pages.{
  resource, host, two_events, parsed, undefined_error, property_of, blank_execution, first_name,
}

abbrev artifact_page : ArtifactList
artifact_page = record {
  artifacts = [];
  rows = [];
  expanded_rows = [];
  artifact_types = none;
  host = host;
}

abbrev opened_world : World
opened_world = Schedule.opened artifact_columns (some (text "pipelineName")) (some asc)

abbrev first_started : Started
first_started = page_changed_start opened_world.table stay

abbrev asking_world : World
asking_world = launched opened_world first_started

-- What `reload` gives where the store's answer fails.
abbrev failing_reply : Reply
failing_reply =
    reply_of
      (Artifacts.reload builtins (λ types n. []) artifact_page first_started.request
        (record { types = []; type_errors = []; artifacts = Artifacts.failed; late = false })).1

abbrev answered_world : World
answered_world = received asking_world first_started.pending failing_reply []

opened-ListReach :
    ListReach builtins (λ types n. []) (artifact_table artifact_page) opened_world answered_world
unfolding start
opened-ListReach =
    next (next here (handled opened_world (page_changed stay) first_started refl) refl)
      (Step.answered asking_world [] [] first_started.pending failing_reply refl)
      (of_artifacts artifact_page first_started.request _)

run-first_page_example :
    IsOnePage answered_world.table.state
    × AsksFirst (start answered_world.table (request_sort (some (text "name"))))
unfolding artifact_table
run-first_page_example =
    run-first_page builtins (λ types n. []) (artifact_table artifact_page) answered_world
      (request_sort (some (text "name"))) (artifacts artifact_page) opened-ListReach refl

-- Built-ins that read no JSON.
abbrev same_text : Text → Text
same_text t = t

abbrev decoded : Text → Option Text
decoded t = some t

abbrev no_json : Text → Option Json
no_json t = none

abbrev no_text : Option Json → Text
no_text j = []

abbrev no_value_text : Option Json → Option Text
no_value_text j = some []

abbrev list_table : CustomTable
list_table = table_of (artifact_table artifact_page)

-- A router that compares locations as they are.
abbrev same_location : (path : Text) → (exact : Bool) → (location : Text) → Bool
same_location path exact location = text_eq path location

abbrev details_url : Text
details_url = text "/artifact_types/m/artifacts/1"

abbrev loaded_artifact : ArtifactDetails
loaded_artifact = record { artifact = some (resource 1); host = host }

click-shows_example :
    clicked same_location same_text details_url details_url
      (text "m")
      loaded_artifact
      0
      1
      (view_at same_location same_text (text "m") (resource 1) 0)
    ≡ view_at same_location same_text (text "m") (resource 1) 1
click-shows_example =
    click-shows same_location same_text details_url details_url (text "m") loaded_artifact
      (resource 1) 0 1 (record { own = refl; below = refl; apart = refl }) refl (omega arith)
      (omega arith)

abbrev loaded_execution : ExecutionDetails
loaded_execution =
    Execution.load parsed undefined_error property_of (text "m") (text "7") blank_execution
      (answered (resource 7 ∷ [], some two_events))

all_listed : has_unlisted two_events ≡ false
unfolding has_unlisted
all_listed = refl

load-sections_example :
    render_execution same_text (text "m") loaded_execution
    ≡ execution_shown (proper_type_name same_text (text "m")) (resource 7) (
        section
          (text "Declared Inputs")
          (ids_of declared_input two_events)
          loaded_execution.artifact_type_map
        ∷ section (text "Inputs") (ids_of input two_events) loaded_execution.artifact_type_map
        ∷ section
            (text "Declared Outputs")
            (ids_of declared_output two_events)
            loaded_execution.artifact_type_map
        ∷ section (text "Outputs") (ids_of output two_events) loaded_execution.artifact_type_map
        ∷ [])
load-sections_example =
    load-sections parsed undefined_error property_of same_text (text "m") (text "7") blank_execution
      (resource 7) [] two_events (str (text "m")) refl first_name all_listed

-- `{"b": 1, "10": 2, "b": 3}`.
abbrev three_fields : Fields
three_fields =
    Fields.field (text "b") (Json.num 1)
      (Fields.field (text "10") (Json.num 2) (Fields.field (text "b") (Json.num 3) Fields.end))

three_fields-entries :
    object_entries (Json.obj three_fields) ≡ (text "10", Json.num 2) ∷ (text "b", Json.num 3) ∷ []
unfolding object_entries
three_fields-entries = refl
