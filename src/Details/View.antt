-- ===== src/Details/View.antt =====
-- `render` of pages/ArtifactDetails.tsx and of pages/ExecutionDetails.tsx. `matches` is react-router's
-- test of a location against a path, with its flag for an exact match.
pub mod Switching
pub mod Sections
use metadata.Prelude.{ℕ, Bool, true, List, [], ◌∷◌, ◌++◌, Option, none, some, if◌then◌else◌}
use metadata.Prelude.Texts.{Text, text}
use metadata.Resources.{Resource, TypeMap}
use metadata.Details.Events.{Events, EventType, declared_input, input, declared_output, output}
use metadata.Details.Artifact.{ArtifactDetails, proper_type_name}
use metadata.Details.Execution.{ExecutionDetails}

abbrev pub tab_names : List Text
tab_names = text "Overview" ∷ text "Lineage Explorer" ∷ []

abbrev pub lineage_path : Text → Text
lineage_path path = path ++ text "/lineage"

-- What the artifact page shows: a spinner, the tab of the artifact's properties or that of its
-- lineage, each with the tab that is marked as selected, or nothing.
pub data ArtifactView : Type 0 where
  spinner : ArtifactView
  overview : (selected : ℕ) → (type_name : Text) → Resource → ArtifactView
  lineage : (selected : ℕ) → Resource → ArtifactView
  blank : ArtifactView

module _ (matches : (path : Text) → (exact : Bool) → (location : Text) → Bool)
    (title_case : Text → Text) where
  unfoldable pub shown_artifact : (path location full_type_name : Text) → Resource → ArtifactView
  shown_artifact path location full_type_name a =
      if matches path true location
      then overview 0 (proper_type_name title_case full_type_name) a
      else if matches (lineage_path path) true location
      then lineage 1 a
      else blank

  unfoldable pub render_artifact :
      (path location full_type_name : Text) → ArtifactDetails → ArtifactView
  unfolding shown_artifact
  render_artifact path location full_type_name p = elim p.artifact [
    | none ↦ spinner
    | some a ↦ shown_artifact path location full_type_name a
  ]

-- A `SectionIO`: its title, and the ids and types that it is given.
pub record Section : Type 0 where
  pub title : Text
  pub artifact_ids : List ℕ
  pub artifact_type_map : Option TypeMap

pub data ExecutionView : Type 0 where
  busy : ExecutionView
  execution_shown : (type_name : Text) → Resource → List Section → ExecutionView

unfoldable pub sections : Events → Option TypeMap → List Section
sections events types =
    record {
      title = text "Declared Inputs";
      artifact_ids = events declared_input;
      artifact_type_map = types;
    }
    ∷ record { title = text "Inputs"; artifact_ids = events input; artifact_type_map = types }
    ∷ record {
      title = text "Declared Outputs";
      artifact_ids = events declared_output;
      artifact_type_map = types;
    }
    ∷ record { title = text "Outputs"; artifact_ids = events output; artifact_type_map = types }
    ∷ []

unfoldable pub render_execution : (Text → Text) → Text → ExecutionDetails → ExecutionView
unfolding sections
render_execution title_case full_type_name p = elim p.execution [
  | none ↦ busy
  | some e ↦ elim p.events [
    | none ↦ busy
    | some events ↦
        execution_shown (proper_type_name title_case full_type_name) e
          (sections events p.artifact_type_map)
  ]
]
