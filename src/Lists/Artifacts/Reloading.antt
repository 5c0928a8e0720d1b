-- ===== src/Lists/Artifacts/Reloading.antt =====
-- What `reload` of the artifact page does with requests after the first.
use metadata.Prelude.{◌≡◌, refl, true, List, ◌∷◌, some, ◌∙◌, ℕ}
use metadata.Prelude.Texts.{Text}
use metadata.Rows.{ListRequest}
use metadata.Resources.{Resource, TypeMap}
use metadata.Lists.Rows.{Builtins, get_rows_from_artifacts}
use metadata.Utils.Group.{CollapsedAndExpandedRows}
use metadata.Lists.Artifacts.{
  ArtifactList, Replies, load_types, load_artifacts, show_rows, reload, artifact_columns,
}
use metadata.Resources.{has_types, known_types}

load_types-known :
    (p : ArtifactList) (r : Replies) → has_types p.artifact_types ≡ true → load_types p r ≡ p
unfolding load_types
load_types-known p r typed = rw typed refl

with_artifacts :
    (p : ArtifactList) (r : Replies) (a : Resource) (rest : List Resource)
    → has_types p.artifact_types ≡ true
    → p.artifacts ≡ a ∷ rest
    → load_artifacts (load_types p r).artifacts (load_types p r) r ≡ some p
unfolding load_artifacts
with_artifacts p r a rest typed some_artifacts =
    (λ k. load_artifacts (load_types-known p r typed k).artifacts (load_types-known p r typed k) r)
    ∙ (λ k. load_artifacts (some_artifacts k) p r)

module _ (b : Builtins) (type_name : TypeMap → ℕ → Text) where
  -- Once the page has artifacts and their types, a reload asks for nothing more: it shows the same
  -- artifacts, filtered, ordered and grouped by the new request.
  reload-again :
      (p : ArtifactList) (request : ListRequest) (r : Replies) (a : Resource) (rest : List Resource)
      (g : CollapsedAndExpandedRows)
      → has_types p.artifact_types ≡ true
      → p.artifacts ≡ a ∷ rest
      → get_rows_from_artifacts b
          (type_name (known_types p.artifact_types))
          request
          artifact_columns
          p.artifacts
        ≡ some g
      → reload b type_name p request r
        ≡ (record p { rows = g.collapsed_rows; expanded_rows = g.expanded_rows }, true)
  unfolding reload show_rows
  reload-again p request r a rest g typed some_artifacts shown =
      rw (with_artifacts p r a rest typed some_artifacts, reload) (rw (shown, show_rows) refl)
