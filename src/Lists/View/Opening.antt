-- ===== src/Lists/View/Opening.antt =====
-- The artifact page when it is opened: its table's first request, and the rows that are shown.
use mathlib.Core.List.{Perm}
use mathlib.Core.Path.{subst}
use metadata.Prelude.{ℕ, ◌≡◌, refl, ◌∙◌, Bool, true, List, [], ◌∷◌, ◌++◌, map, some, arith, inl}
use metadata.Prelude.Texts.{Text, text}
use metadata.Rows.{Row, ListRequest}
use metadata.Resources.{Resource, TypeMap, known_types}
use metadata.Shell.Links.{row_id}
use metadata.Shell.Page.{clear_banner}
use metadata.Table.State.{construct, reload}
use metadata.Table.Events.{stay, load, page_changed_start}
use metadata.Utils.Compare.{Sign, row_compare_fn}
use metadata.Utils.Group.{CollapsedAndExpandedRows, group_rows}
use metadata.Utils.Group.Kept.{ids, all_hidden}
use metadata.Utils.Filter.Kept.{row_filter_fn-word}
use metadata.Lists.Rows.{Builtins, filtered, grouped, artifact_row, get_rows_from_artifacts}
use metadata.Lists.Rows.Shown.{grouped-perm}
use metadata.Lists.Artifacts.{
  ArtifactList, Replies, ArtifactsReply, found, load_types, load_artifacts, receive_artifacts,
  show_rows, artifact_columns,
}
use metadata.Lists.Artifacts
use metadata.Lists.View.{artifact_table, table_of}

-- The request that the table sends when it is mounted.
abbrev pub first_request : ArtifactList → ListRequest
first_request p = (page_changed_start (table_of (artifact_table p)) stay).request

first_request-asks :
    (p : ArtifactList)
    → ((first_request p).filter ≡ some [])
      × ((first_request p).sort_by ≡ some (text "pipelineName"))
      × ((first_request p).order_ascending ≡ true)
unfolding page_changed_start load construct reload artifact_table
first_request-asks p = (refl, refl, refl)

filtered-all :
    (b : Builtins) (request : ListRequest) (rows : List Row)
    → request.filter ≡ some []
    → filtered b request rows ≡ some rows
unfolding filtered
filtered-all b request [] e = refl
filtered-all b request (r ∷ rows) e =
    rw
      (
        row_filter_fn-word b.to_lower_case b.decode_uri_component b.parse_json b.to_text request []
            r e (inl refl),
        filtered-all b request rows e,
        filtered,
      )
      refl

ids-artifact_row :
    (type_name : ℕ → Text) (artifacts : List Resource)
    → ids (map (artifact_row type_name) artifacts)
      ≡ map (λ a. row_id (type_name a.type_id) a.id) artifacts
unfolding artifact_row
ids-artifact_row type_name [] = refl
ids-artifact_row type_name (a ∷ rest) =
    λ k. row_id (type_name a.type_id) a.id ∷ ids-artifact_row type_name rest k

load_types-artifacts : (p : ArtifactList) (r : Replies) → (load_types p r).artifacts ≡ p.artifacts
unfolding load_types
load_types-artifacts p r = ground arith

-- The page with the artifacts that have come.
abbrev with_artifacts : ArtifactList → List Resource → ArtifactList
with_artifacts q artifacts = record q { artifacts = artifacts; host = clear_banner q.host }

received :
    (p : ArtifactList) (r : Replies) (artifacts : List Resource)
    → p.artifacts ≡ []
    → r.artifacts ≡ found artifacts
    → load_artifacts (load_types p r).artifacts (load_types p r) r
      ≡ some (with_artifacts (load_types p r) artifacts)
unfolding load_artifacts receive_artifacts
received p r artifacts empty e =
    (λ k. load_artifacts ((load_types-artifacts p r ∙ empty) k) (load_types p r) r) ∙ rw e refl

module _ (b : Builtins) (type_name : TypeMap → ℕ → Text) where
  abbrev pub opened : ArtifactList → Replies → ArtifactList × Bool
  opened p r = Artifacts.reload b type_name p (first_request p) r

  opened-rows :
      (p : ArtifactList) (r : Replies) (artifacts : List Resource) (g : CollapsedAndExpandedRows)
      → p.artifacts ≡ []
      → r.artifacts ≡ found artifacts
      → get_rows_from_artifacts b
          (type_name (known_types (load_types p r).artifact_types))
          (first_request p)
          artifact_columns
          artifacts
        ≡ some g
      → opened p r ≡ (
        record (with_artifacts (load_types p r) artifacts) {
          rows = g.collapsed_rows;
          expanded_rows = g.expanded_rows;
        },
        true,
      )
  unfolding Artifacts.reload show_rows
  opened-rows p r artifacts g empty e shown =
      rw (Artifacts.reload, received p r artifacts empty e) (rw (show_rows, shown) refl)

  -- When the artifact page is opened and the store answers with artifacts, `Array.sort` permuting what
  -- it is given: the table asks for the rows by pipeline, ascending, without a filter, the page's
  -- `reload` succeeds, and the rows shown and the rows hidden in groups are together the artifacts, each
  -- as often as it came.
  pub opened-shows :
      (p : ArtifactList) (r : Replies) (artifacts : List Resource)
      → ((f : Row → Row → Sign) (rs : List Row) → Perm (b.sort f rs) rs)
      → p.artifacts ≡ []
      → r.artifacts ≡ found artifacts
      → let (q, fulfilled) = opened p r in
        ((first_request p).sort_by ≡ some (text "pipelineName"))
        × ((first_request p).order_ascending ≡ true)
        × (fulfilled ≡ true)
        × Perm
            (ids q.rows ++ ids (all_hidden q.expanded_rows))
            (map (λ a. row_id (type_name (known_types q.artifact_types) a.type_id) a.id) artifacts)
  unfolding get_rows_from_artifacts grouped
  opened-shows p r artifacts permutes empty e =
      let types = type_name (known_types (load_types p r).artifact_types) in
      let rows = map (artifact_row types) artifacts in
      let (filter, sort_by, ascending) = first_request-asks p in
      let kept = filtered-all b (first_request p) rows filter in
      let g =
        group_rows (b.sort (row_compare_fn b.to_number (first_request p) artifact_columns) rows) in
      let shown : grouped b (first_request p) artifact_columns rows ≡ some g =
        rw (kept, grouped) refl in
      let perm =
        grouped-perm b (first_request p) artifact_columns rows rows g permutes kept shown in
      (
        sort_by,
        ascending,
        (λ k. (opened-rows p r artifacts g empty e shown k).1),
        rw (opened-rows p r artifacts g empty e shown) (
            subst (Perm (ids g.collapsed_rows ++ ids (all_hidden g.expanded_rows)))
              (ids-artifact_row types artifacts) perm),
      )
