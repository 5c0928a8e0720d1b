-- ===== src/Rows.antt =====
-- The data that the table, its callers and `Utils` share: components/CustomTable.tsx (Row, Column,
-- ExpandState) and the request type of @kubeflow/frontend, by the fields that the frontend uses.
use metadata.Prelude.{some, ℕ, Bool, Option, List, [], ◌∷◌, zero, suc}
use metadata.Prelude.Texts.{Text}
use metadata.Value.{Value, undefined}

pub data ExpandState : Type 0 where
  collapsed expanded none_state : ExpandState

-- A column; `renderer` says that it has a custom renderer.
pub record Column : Type 0 where
  pub flex : Option ℕ
  pub label : Text
  pub sort_key : Option Text
  pub custom_renderer : Bool

-- A column of the list pages.
abbrev pub column : ℕ → Text → Text → Bool → Column
column flex label sort_key custom_renderer = record {
  flex = some flex;
  label = label;
  sort_key = some sort_key;
  custom_renderer = custom_renderer;
}

pub record Row : Type 0 where
  pub expand_state : Option ExpandState
  pub error : Option Text
  pub id : Text
  pub other_fields : List Value

pub record ListRequest : Type 0 where
  pub filter : Option Text
  pub order_ascending : Bool
  pub page_size : Option ℕ
  pub page_token : Option Text
  pub sort_by : Option Text

-- `otherFields[i]`, undefined past the end.
abbrev pub field_at : List Value → ℕ → Value
field_at [] i = undefined
field_at (v ∷ vs) zero = v
field_at (v ∷ vs) (suc i) = field_at vs i

-- The column that rows are grouped by.
abbrev pub group_key : Row → Value
group_key r = field_at r.other_fields 0
