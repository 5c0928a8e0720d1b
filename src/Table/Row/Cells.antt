-- ===== src/Table/Row/Cells.antt =====
-- A row with as many cells as there are columns can be rendered.
use metadata.Prelude.{
  suc, Bool, true, false, List, [], ◌∷◌, some, length, ◌≡◌, refl, ap, ◌∙◌, arith,
}
use metadata.Value.{Value}
use metadata.Rows.{Row, Column}
use metadata.Table.Row.{
  Percent, calculate_column_widths, Cell, cells, cell_of, tail_of, custom_table_row,
}

cells-total :
    (r : Row) (first : Bool) (ws : List Percent) (cs : List Column) (vs : List Value)
    → length vs ≡ length cs
    → (more : List Cell) × (cells r first ws cs vs ≡ some more) × (length more ≡ length vs)
unfolding cells
cells-total r first ws cs [] h = ([], refl, refl)
cells-total r first ws [] (v ∷ vs) h = absurd (omega arith)
cells-total r first ws (c ∷ cs) (v ∷ vs) h =
    let (more, e, l) = cells-total r false (tail_of ws) cs vs (omega arith) in
    (cell_of r first ws c v ∷ more, rw (e, cells), ap suc l)

pub custom_table_row-total :
    (r : Row) (columns : List Column)
    → length r.other_fields ≡ length columns
    → (cs : List Cell) × (custom_table_row r columns ≡ some cs) × (length cs ≡ length columns)
unfolding custom_table_row
custom_table_row-total r columns h =
    let (cs, e, l) =
      cells-total r true (calculate_column_widths columns) columns r.other_fields h in
    (cs, e, l ∙ h)
