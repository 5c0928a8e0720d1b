-- ===== src/Utils/Group.antt =====
-- lib/Utils.tsx, `groupRows` and `getExpandedRow`. The Map that groups the rows keeps the order of
-- insertion, so it is a list of groups. A group's array is made with one row and only grows, so
-- it is a first row and the rest. The rows are objects that the caller has just made, each once,
-- so the writes to them are updates of the row in its group.
pub mod Keys
pub mod Shown
pub mod Kept
use metadata.Prelude.{ℕ, suc, List, [], ◌∷◌, ◌++◌, map, some, ◌==◌, if◌then◌else◌, length}
use metadata.Value.{Value, value_eq, empty_string}
use metadata.Rows.{Row, none_state, group_key}

pub record Group : Type 0 where
  pub key : Value
  pub first : Row
  pub rest : List Row

-- One round of `rows.reduce`.
unfoldable pub add_row : List Group → Row → List Group
add_row [] r = record { key = group_key r; first = r; rest = [] } ∷ []
add_row (g ∷ m) r =
    if value_eq g.key (group_key r)
    then record g { rest = g.rest ++ r ∷ [] } ∷ m
    else g ∷ add_row m r

unfoldable pub flatten_from : List Group → List Row → List Group
flatten_from m [] = m
flatten_from m (r ∷ rs) = flatten_from (add_row m r) rs

unfoldable pub flattened_rows : List Row → List Group
unfolding flatten_from add_row
flattened_rows rows = flatten_from [] rows

-- `row.otherFields[0] = ''`.
unfoldable pub blank_first : List Value → List Value
blank_first [] = empty_string ∷ []
blank_first (v ∷ vs) = empty_string ∷ vs

unfoldable pub hide : Row → Row
hide r = record r { other_fields = blank_first r.other_fields }

unfoldable pub collapsed_row : Group → Row
collapsed_row g =
    if length (g.first ∷ g.rest) == 1
    then record g.first { expand_state = some none_state }
    else g.first

pub record CollapsedAndExpandedRows : Type 0 where
  pub collapsed_rows : List Row
  pub expanded_rows : List (ℕ × List Row)

unfoldable pub number_from : ℕ → List Group → List (ℕ × List Row)
number_from index [] = []
number_from index (g ∷ m) = (index, map hide g.rest) ∷ number_from (suc index) m

unfoldable pub group_rows : List Row → CollapsedAndExpandedRows
unfolding collapsed_row number_from hide blank_first
group_rows rows =
    let groups = flattened_rows rows in
    record { collapsed_rows = map collapsed_row groups; expanded_rows = number_from 0 groups }

-- `expandedRows.get(index) || []`, the rows that an expanded group shows.
unfoldable pub get_expanded_row : List (ℕ × List Row) → ℕ → List Row
get_expanded_row [] index = []
get_expanded_row ((i, rows) ∷ m) index = if i == index then rows else get_expanded_row m index
