-- ===== src/Table/Row.antt =====
-- components/CustomTableRow.tsx: the cells of a row. A width is a floating-point number, which is kept
-- as the operands of the expression that gives it.
pub mod Cells
use metadata.Prelude.{
  ℕ, zero, suc, ◌+◌, ◌*◌, Bool, true, false, List, [], ◌∷◌, map, Option, none, some, if◌then◌else◌,
  ◌==◌, sum_of,
}
use metadata.Prelude.Texts.{Text}
use metadata.Value.{Value}
use metadata.Rows.{Row, Column}

-- `c.flex || 1`.
abbrev pub flex_of : Column → ℕ
flex_of c = elim c.flex [ none ↦ 1 | some n ↦ if n == 0 then 1 else n ]

-- The expression `flex / total * 100`, whose two operations round.
pub record Percent : Type 0 where
  pub flex : ℕ
  pub total : ℕ

-- `columns.reduce((total, c) => total += c.flex || 1, 0)`.
pub total_flex : ℕ → List Column → ℕ
total_flex total [] = total
total_flex total (c ∷ cs) = total_flex (total + flex_of c) cs

unfoldable pub calculate_column_widths : List Column → List Percent
unfolding total_flex
calculate_column_widths columns =
    map (λ c. record { flex = flex_of c; total = total_flex 0 columns }) columns

pub data Content : Type 0 where
  custom : (value : Value) (id : Text) → Content
  plain : Value → Content

pub record Cell : Type 0 where
  pub width : Option Percent
  pub warning : Option Text
  pub content : Content

abbrev head_of : List Percent → Option Percent
head_of [] = none
head_of (w ∷ ws) = some w

abbrev tail_of : List Percent → List Percent
tail_of [] = []
tail_of (w ∷ ws) = ws

abbrev cell_of : Row → (first : Bool) → List Percent → Column → Value → Cell
cell_of r first widths c v = record {
  width = head_of widths;
  warning = if first then r.error else none;
  content = if c.custom_renderer then custom v r.id else plain v;
}

-- The cells from index `i` on; a cell without a column makes the source read a property of
-- undefined, which throws.
pub cells : Row → (first : Bool) → List Percent → List Column → List Value → Option (List Cell)
cells r first widths columns [] = some []
cells r first widths [] (v ∷ vs) = none
cells r first widths (c ∷ cs) (v ∷ vs) = elim (cells r false (tail_of widths) cs vs) [
  | none ↦ none
  | some more ↦ some (cell_of r first widths c v ∷ more)
]

unfoldable pub custom_table_row : Row → List Column → Option (List Cell)
unfolding cells
custom_table_row r columns = cells r true (calculate_column_widths columns) columns r.other_fields
