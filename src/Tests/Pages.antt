-- ===== src/Tests/Pages.antt =====
-- The details pages on small inputs.
use metadata.Prelude.{ℕ, ◌≡◌, ◌≢◌, refl, Bool, List, [], ◌∷◌, Option, none, some, arith}
use metadata.Prelude.Texts.{Text, text}
use metadata.Value.{Value, str}
use metadata.Resources.{TypeMap, Resource, PropertyName}
use metadata.Utils.Messages.{Thrown}
use metadata.Shell.Host.{Host, error}
use metadata.Shell.Host
use metadata.Details.Events.{Event, input, output, listed, parse_events_by_type, no_events}
use metadata.Details.Artifact.{ArtifactDetails, Reply, answered, thrown}
use metadata.Details.Execution.{
  TypesReply, types, types_arrived, ExecutionDetails, Parsed, natural, page_error,
}
use metadata.Details.Execution
use metadata.Details.Execution.Order.{without_banner, load-types_arrived}

abbrev pub resource : ℕ → Resource
resource id = record {
  id = id;
  type_id = 1;
  uri = text "gs://m";
  property = λ key custom. str (text "m");
}

abbrev pub failure : ℕ → Thrown
failure code = record { message = str (text "gone"); code = some code }

abbrev pub host : Host
host = Host.construct

abbrev pub two_events : List Event
two_events =
    record { type = listed input; artifact_id = some 3 }
    ∷ record { type = listed output; artifact_id = some 4 }
    ∷ []

abbrev blank_artifact : ArtifactDetails
blank_artifact = record { artifact = none; host = host }

abbrev pub blank_execution : ExecutionDetails
blank_execution = record { execution = none; events = none; artifact_type_map = none; host = host }

abbrev pub parsed : Text → Parsed
parsed t = natural 7

abbrev pub undefined_error : Thrown
undefined_error = record { message = str (text "undefined"); code = none }

-- A `getResourceProperty` that throws for undefined.
abbrev pub property_of : Option Resource → PropertyName → Bool → Reply Value
property_of none key custom = thrown undefined_error
property_of (some r) key custom = answered (r.property key custom)

pub first_name :
    Execution.execution_name parsed undefined_error property_of (some (resource 7))
    ≡ answered (str (text "m"))
unfolding Execution.execution_name
first_name = refl

abbrev shown_page : ExecutionDetails
shown_page =
    Execution.load parsed undefined_error property_of (text "m") (text "7") blank_execution
      (answered (resource 7 ∷ resource 8 ∷ [], none))

no_events-parsed : parse_events_by_type none ≡ some no_events
unfolding parse_events_by_type
no_events-parsed = refl

two-ne_zero : ◌≢◌ {A = ℕ} 2 0
two-ne_zero = ground arith

load-types_arrived_example :
    ((t : TypesReply)
      → without_banner (
          types_arrived
            (Execution.load parsed undefined_error property_of
              (text "m")
              (text "7")
              blank_execution
              (answered (resource 7 ∷ [], some two_events)))
            t)
        ≡ without_banner (
            Execution.load parsed undefined_error property_of
              (text "m")
              (text "7")
              (types_arrived blank_execution t)
              (answered (resource 7 ∷ [], some two_events))))
    × ((m : TypeMap)
        → types_arrived
            (Execution.load parsed undefined_error property_of
              (text "m")
              (text "7")
              blank_execution
              (answered (resource 7 ∷ [], some two_events)))
            (types m)
          ≡ Execution.load parsed undefined_error property_of
              (text "m")
              (text "7")
              (types_arrived blank_execution (types m))
              (answered (resource 7 ∷ [], some two_events)))
load-types_arrived_example =
    load-types_arrived parsed undefined_error property_of (text "m") (text "7") blank_execution
      (answered (resource 7 ∷ [], some two_events))
