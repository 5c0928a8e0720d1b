-- ===== src/Lists/Executions.antt =====
-- pages/ExecutionList.tsx: the page's state and `reload`, with its `try` around everything. What
-- the server answers is an argument.
pub mod Reloading
use metadata.Prelude.{
  ℕ, Bool, true, false, List, [], ◌∷◌, ◌++◌, Option, none, some, if◌then◌else◌, ◌==◌,
}
use metadata.Prelude.Texts.{Text, text}
use metadata.Value.{str}
use metadata.Rows.{column, Row, Column, ListRequest}
use metadata.Resources.{has_types, known_types, Resource, TypeMap, type_map_from}
use metadata.Utils.Group.{CollapsedAndExpandedRows}
use metadata.Utils.Messages.{Thrown, shown, service_error_to_string, other}
use metadata.Lists.Rows.{Builtins, get_rows_from_executions}
use metadata.Shell.Host.{Host}
use metadata.Shell.Page.{clear_banner, show_page_error}

abbrev pub execution_columns : List Column
execution_columns =
    column 2 (text "Pipeline/Workspace") (text "pipelineName") true
    ∷ column 1 (text "Name") (text "name") true
    ∷ column 1 (text "State") (text "state") false
    ∷ column 1 (text "ID") (text "id") false
    ∷ column 2 (text "Type") (text "type") false
    ∷ []

pub record ExecutionList : Type 0 where
  pub executions : List Resource
  pub rows : List Row
  pub expanded_rows : List (ℕ × List Row)
  pub execution_types : Option TypeMap
  pub host : Host

pub data Reply {ℓ} (A : Type ℓ) : Type ℓ where
  answered : A → Reply A
  thrown : Thrown → Reply A

pub record Replies : Type 0 where
  pub types : Reply TypeMap
  pub executions : Reply (List Resource)

pub report : ExecutionList → Thrown → ExecutionList
report p e = record p {
  host = show_page_error p.host (service_error_to_string e) (other none) none;
}

-- `getExecutionTypes`.
pub get_execution_types : ExecutionList → Reply TypeMap → ExecutionList
unfolding report
get_execution_types p (answered types) = record p {
  execution_types = some (type_map_from [] types);
}
get_execution_types p (thrown e) = record (report p e) { execution_types = some [] }

abbrev pub is_not_found : Option ℕ → Bool
is_not_found none = false
is_not_found (some n) = n == 5

-- `getExecutions`: the code 5 means that there are none.
pub get_executions : Reply (List Resource) → Reply (List Resource)
get_executions (answered executions) = answered executions
get_executions (thrown e) =
    if is_not_found e.code
    then answered []
    else thrown (record e { message = str (text "Failed getting executions: " ++ shown e.message) })

module _ (b : Builtins) (uri_error : Thrown) where
  -- `uri_error` is what the filter throws.
  pub show_rows : ExecutionList → ListRequest → ExecutionList
  unfolding report
  show_rows p request =
      elim (get_rows_from_executions b (known_types p.execution_types) request execution_columns
        p.executions) [
          | none ↦ report p uri_error
          | some g ↦ record p { rows = g.collapsed_rows; expanded_rows = g.expanded_rows }
        ]

  pub load_executions : ExecutionList → ListRequest → Reply (List Resource) → ExecutionList
  unfolding show_rows
  load_executions p request (thrown e) = report p e
  load_executions p request (answered executions) =
      show_rows (record p { executions = executions; host = clear_banner p.host }) request

  -- The executions that the page has are not asked for again.
  unfoldable pub load_first : List Resource → ExecutionList → ListRequest → Replies → ExecutionList
  unfolding get_executions load_executions
  load_first (e ∷ rest) p request r = p
  load_first [] p request r = load_executions p request (get_executions r.executions)

  pub with_types : ExecutionList → Replies → ExecutionList
  unfolding get_execution_types
  with_types p r = if has_types p.execution_types then p else get_execution_types p r.types

  unfoldable pub reload : ExecutionList → ListRequest → Replies → ExecutionList
  unfolding with_types load_first
  reload p request r = let q = with_types p r in load_first q.executions q request r
