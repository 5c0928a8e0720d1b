-- ===== src/Lists/Rows.antt =====
-- pages/ArtifactList.tsx and pages/ExecutionList.tsx: how a resource becomes a row of the table, and
-- how the rows of a request are chosen, ordered and grouped. `sort` is the engine's `Array.sort`.
pub mod Shown
use metadata.Prelude.{
  ℕ, Bool, true, false, List, [], ◌∷◌, ◌++◌, map, Option, none, some, if◌then◌else◌, is_some,
  or_else,
}
use metadata.Prelude.Texts.{Text, text}
use metadata.Prelude.Numerals.{decimal}
use metadata.Value.{Value, num, str, ◌|||◌}
use metadata.Rows.{Row, Column, ListRequest}
use metadata.Json.{Json}
use metadata.Resources.{
  Resource, TypeMap, get_type, name, pipeline_name, workspace, run_id, task_id, component_id, state,
}
use metadata.Shell.Links.{row_id}
use metadata.Utils.Filter.{row_filter_fn}
use metadata.Utils.Compare.{row_compare_fn, Sign}
use metadata.Utils.Group.{CollapsedAndExpandedRows, group_rows}

abbrev plain_row : Text → List Value → Row
plain_row id fields = record { expand_state = none; error = none; id = id; other_fields = fields }

-- `type_name` is `getTypeName(typeId, types)` of @kubeflow/frontend.
unfoldable pub artifact_row : (ℕ → Text) → Resource → Row
artifact_row type_name a =
    let type = type_name a.type_id in
    plain_row (row_id type a.id) (
      (a.property pipeline_name false ||| a.property workspace true)
      ∷ a.property name false
      ∷ num a.id
      ∷ str type
      ∷ str a.uri
      ∷ [])

-- A type that is not known is shown as its number, and the number stands in the row's id.
unfoldable pub execution_row : TypeMap → Resource → Row
execution_row types e =
    let type = get_type e.type_id types in
    plain_row (row_id (or_else type (decimal e.type_id)) e.id) (
      (e.property pipeline_name false ||| (e.property workspace true ||| e.property run_id true))
      ∷ (e.property name false ||| (e.property component_id false ||| e.property task_id true))
      ∷ e.property state false
      ∷ num e.id
      ∷ elim type [ none ↦ num e.type_id | some t ↦ str t ]
      ∷ [])

-- The built-in functions that the rows go through.
pub record Builtins : Type 0 where
  pub to_lower_case : Text → Text
  pub decode_uri_component : Text → Option Text
  pub parse_json : Text → Option Json
  pub to_text : Option Json → Text
  pub to_number : Text → Option ℕ
  pub sort : (Row → Row → Sign) → List Row → List Row

module _ (b : Builtins) where
  abbrev pub filter_fn : ListRequest → Row → Option Bool
  filter_fn = row_filter_fn b.to_lower_case b.decode_uri_component b.parse_json b.to_text

  -- `rows.filter(rowFilterFn(request))`; nothing when the filter throws.
  unfoldable pub filtered : ListRequest → List Row → Option (List Row)
  filtered request [] = some []
  filtered request (r ∷ rows) = elim (filter_fn request r) [
    | none ↦ none
    | some keep ↦ elim (filtered request rows) [
      | none ↦ none
      | some rest ↦ some (if keep then r ∷ rest else rest)
    ]
  ]

  unfoldable pub grouped : ListRequest → List Column → List Row → Option CollapsedAndExpandedRows
  unfolding filtered
  grouped request columns rows = elim (filtered request rows) [
    | none ↦ none
    | some kept ↦ some (group_rows (b.sort (row_compare_fn b.to_number request columns) kept))
  ]

  -- `getRowsFromArtifacts` and `getRowsFromExecutions`.
  unfoldable pub get_rows_from_artifacts :
      (ℕ → Text) → ListRequest → List Column → List Resource → Option CollapsedAndExpandedRows
  unfolding grouped
  get_rows_from_artifacts type_name request columns artifacts =
      grouped request columns (map (artifact_row type_name) artifacts)

  unfoldable pub get_rows_from_executions :
      TypeMap → ListRequest → List Column → List Resource → Option CollapsedAndExpandedRows
  unfolding grouped
  get_rows_from_executions types request columns executions =
      grouped request columns (map (execution_row types) executions)
