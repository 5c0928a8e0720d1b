-- ===== src/Lists/View.antt =====
-- `render` and `getInitialToolbarState` of pages/ArtifactList.tsx and pages/ExecutionList.tsx: how the
-- pages set their table up.
pub mod Paging
pub mod Typing
pub mod Opening
pub mod Expanding
use metadata.Prelude.{Bool, true, List, [], Option, some}
use metadata.Prelude.Texts.{Text, text}
use metadata.Rows.{Row, Column}
use metadata.Shell.Host.{ToolbarProps}
use metadata.Table.State.{SortOrder, asc, CustomTable, construct}
use metadata.Lists.Artifacts.{artifact_columns, ArtifactList}
use metadata.Lists.Executions.{execution_columns, ExecutionList}

pub record TableProps : Type 0 where
  pub columns : List Column
  pub rows : List Row
  pub disable_paging : Bool
  pub disable_selection : Bool
  pub initial_sort_column : Text
  pub initial_sort_order : SortOrder
  pub empty_message : Text

unfoldable pub artifact_toolbar : ToolbarProps
artifact_toolbar = record { actions = []; breadcrumbs = []; page_title = some (text "Artifacts") }

unfoldable pub execution_toolbar : ToolbarProps
execution_toolbar = record { actions = []; breadcrumbs = []; page_title = some (text "Executions") }

unfoldable pub artifact_table : ArtifactList → TableProps
artifact_table p = record {
  columns = artifact_columns;
  rows = p.rows;
  disable_paging = true;
  disable_selection = true;
  initial_sort_column = text "pipelineName";
  initial_sort_order = asc;
  empty_message = text "No artifacts found.";
}

unfoldable pub execution_table : ExecutionList → TableProps
execution_table p = record {
  columns = execution_columns;
  rows = p.rows;
  disable_paging = true;
  disable_selection = true;
  initial_sort_column = text "pipelineName";
  initial_sort_order = asc;
  empty_message = text "No executions found.";
}

-- The table that is built with these properties.
abbrev pub table_of : TableProps → CustomTable
table_of t = construct t.columns (some t.initial_sort_column) (some t.initial_sort_order)
