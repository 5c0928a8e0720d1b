-- ===== src/Table/View/Rendering.antt =====
-- What the rendered table keeps: rows that can be rendered, and buttons that
-- lead to pages with a token.
use metadata.Prelude.{
  ℕ, ◌+◌, true, List, none, some, ◌==◌, leb, length, ◌≡◌, ◌≢◌, refl, arith, Bool-cases, inl, inr,
  ◌⊎◌, get_elem?, get_elem?-of_lt,
}
use metadata.Prelude.Texts.{Text}
use metadata.Rows.{Row}
use metadata.Table.Row.{Cell}
use metadata.Table.Row.Cells.{custom_table_row-total}
use metadata.Table.State.{CustomTableState}
use metadata.Table.Events.{forward, new_current_page}
use metadata.Table.Events.Paging.{IsValid, new_current_page-forward}
use metadata.Table.View.{ViewProps, RowView, row_view, shown_row, footer_of}

-- A row is left out exactly when it has not as many cells as there are columns, and a row that is
-- shown never makes the row renderer fail: it has one cell for each column.
pub row_view-renders :
    (p : ViewProps) (i : ℕ) (r : Row)
    → ((row_view p i r ≡ none) × (length r.other_fields ≢ length p.columns))
      ⊎ ((v : RowView) × (row_view p i r ≡ some v)
          × (length r.other_fields ≡ length p.columns)
          × ((cs : List Cell) × (v.rendered ≡ some cs) × (length cs ≡ length p.columns)))
unfolding row_view
row_view-renders p i r = elim (Bool-cases (length r.other_fields == length p.columns)) [
  | inl e ↦
      let same : length r.other_fields ≡ length p.columns = ground arith in
      inr (shown_row p i r, rw e refl, same, custom_table_row-total r p.columns same)
  | inr e ↦ inl (rw e refl, λ same. absurd (ground arith))
]

-- On a valid table the pager's buttons that are enabled lead to the page next to the present one,
-- and that page has a token.
pub footer_of-enabled :
    (s : CustomTableState)
    → IsValid s
    → ((footer_of s).forward_disabled ≡ true)
      ⊎ ((new_current_page s forward ≡ s.current_page + 1)
          × ((t : Text) × (get_elem? s.token_list (s.current_page + 1) ≡ some t)))
unfolding footer_of
footer_of-enabled s v = elim (Bool-cases (leb s.max_page_index s.current_page)) [
  | inl e ↦ inl e
  | inr e ↦ inr (
    new_current_page-forward s (ground arith),
    get_elem?-of_lt s.token_list _ (ground (arith, v.ahead)),
  )
]
