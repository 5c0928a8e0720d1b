-- ===== src/Lists/Artifacts.antt =====
-- pages/ArtifactList.tsx: the page's state and `reload`. What the server answers is an argument. A
-- banner from `showPageError` arrives when its message does; `late` says that this is after the
-- `clearBanner` that follows in `reload`.
pub mod Reloading
use metadata.Prelude.{ℕ, Bool, true, false, List, [], ◌∷◌, Option, none, some, if◌then◌else◌}
use metadata.Prelude.Texts.{Text, text}
use metadata.Rows.{column, Row, Column, ListRequest}
use metadata.Resources.{has_types, known_types, Resource, TypeMap}
use metadata.Utils.Group.{CollapsedAndExpandedRows}
use metadata.Utils.Messages.{Failure, other}
use metadata.Lists.Rows.{Builtins, get_rows_from_artifacts}
use metadata.Shell.Host.{Host}
use metadata.Shell.Page.{clear_banner, show_page_error}

abbrev pub artifact_columns : List Column
artifact_columns =
    column 2 (text "Pipeline/Workspace") (text "pipelineName") true
    ∷ column 1 (text "Name") (text "name") true
    ∷ column 1 (text "ID") (text "id") false
    ∷ column 2 (text "Type") (text "type") false
    ∷ column 2 (text "URI") (text "uri") false
    ∷ []

pub record ArtifactList : Type 0 where
  pub artifacts : List Resource
  pub rows : List Row
  pub expanded_rows : List (ℕ × List Row)
  pub artifact_types : Option TypeMap
  pub host : Host

-- A rejected promise, a response that is null, or a list.
pub data ArtifactsReply : Type 0 where
  failed : ArtifactsReply
  missing : ArtifactsReply
  found : List Resource → ArtifactsReply

-- The types that `getArtifactTypes` of @kubeflow/frontend gives, and the errors it reports by the
-- callback.
pub record Replies : Type 0 where
  pub types : TypeMap
  pub type_errors : List (Text × Failure)
  pub artifacts : ArtifactsReply
  pub late : Bool

pub report_all : Host → List (Text × Failure) → Host
report_all h [] = h
report_all h ((m, f) ∷ errors) = report_all (show_page_error h m f none) errors

unfoldable pub load_types : ArtifactList → Replies → ArtifactList
unfolding report_all
load_types p r =
    if has_types p.artifact_types
    then p
    else record p { artifact_types = some r.types; host = report_all p.host r.type_errors }

pub retrieve_error : Host → Host
retrieve_error h = show_page_error h (text "Unable to retrieve Artifacts.") (other none) none

-- What `reload` does with an answer; nothing when it is rejected.
unfoldable pub receive_artifacts : ArtifactList → Replies → Option ArtifactList
unfolding retrieve_error
receive_artifacts p r = elim r.artifacts [
  | failed ↦ none
  | missing ↦ some (record p {
    artifacts = [];
    host =
        if r.late
        then retrieve_error (clear_banner p.host)
        else clear_banner (retrieve_error p.host);
  })
  | found artifacts ↦ some (record p { artifacts = artifacts; host = clear_banner p.host })
]

-- The artifacts that the page has are not asked for again.
unfoldable pub load_artifacts : List Resource → ArtifactList → Replies → Option ArtifactList
unfolding receive_artifacts
load_artifacts (a ∷ rest) p r = some p
load_artifacts [] p r = receive_artifacts p r

-- The page after `reload`, and whether its promise is fulfilled. `type_name` is `getTypeName` of
-- @kubeflow/frontend.
module _ (b : Builtins) (type_name : TypeMap → ℕ → Text) where
  unfoldable pub show_rows : ArtifactList → ListRequest → ArtifactList × Bool
  show_rows p request =
      elim (get_rows_from_artifacts b (type_name (known_types p.artifact_types)) request
        artifact_columns p.artifacts) [
          | none ↦ (p, false)
          | some g ↦ (record p { rows = g.collapsed_rows; expanded_rows = g.expanded_rows }, true)
        ]

  unfoldable pub reload : ArtifactList → ListRequest → Replies → ArtifactList × Bool
  unfolding load_types load_artifacts show_rows
  reload p request r =
      let q = load_types p r in
      elim (load_artifacts q.artifacts q r) [
        | none ↦ (q, false)
        | some loaded ↦ show_rows loaded request
      ]
