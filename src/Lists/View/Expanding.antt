-- ===== src/Lists/View/Expanding.antt =====
-- The expand buttons of a list page: the click, the page's rows, and what the table shows of them.
use metadata.Prelude.{
  ℕ, zero, suc, ◌≡◌, ◌≢◌, refl, true, false, List, [], ◌∷◌, Option, none, some, get_elem?, set, ap,
  ◌∙◌,
}
use metadata.Rows.{Row, ExpandState, expanded, collapsed, none_state}
use metadata.Table.View.{ViewProps, shown_row, is_expanded, expand_button_toggled}
use metadata.Lists.Expand.{next_state, toggle_row_expand, with_state, toggle_row_expand-at, get-set}

set-other {ℓ} :
    {A : Type ℓ} (xs : List A) (i j : ℕ) (a : A) → i ≢ j → get_elem? (set xs i a) j ≡ get_elem? xs j
set-other [] i j a ne = refl
set-other (x ∷ xs) zero zero a ne = absurd (ne refl)
set-other (x ∷ xs) zero (suc j) a ne = refl
set-other (x ∷ xs) (suc i) zero a ne = refl
set-other (x ∷ xs) (suc i) (suc j) a ne = set-other xs i j a (λ e. ne (ap suc e))

next_state-opened : (e : Option ExpandState) → is_expanded e ≡ false → next_state e ≡ expanded
next_state-opened none h = refl
next_state-opened (some expanded) h = cc
next_state-opened (some collapsed) h = refl
next_state-opened (some none_state) h = refl

-- On a page with expand components, a click on the expand button of a row that is not expanded opens
-- it: the page's row there differs in its expand state only, the table shows it open with the
-- component for its index, and the row at any other index is as before.
expand_button_toggled-opens :
    (p : ViewProps) (rows : List Row) (i j : ℕ) (r : Row)
    → p.get_expand_component ≡ true
    → get_elem? rows i ≡ some r
    → is_expanded r.expand_state ≡ false
    → i ≢ j
    → (get_elem? (expand_button_toggled (some toggle_row_expand) rows i) i
        ≡ some (with_state r expanded))
      × ((shown_row p i (with_state r expanded)).opened ≡ true)
      × ((shown_row p i (with_state r expanded)).expand_component ≡ some i)
      × (get_elem? (expand_button_toggled (some toggle_row_expand) rows i) j ≡ get_elem? rows j)
unfolding expand_button_toggled with_state
expand_button_toggled-opens p rows i j r shows h closed ne =
    let turned = with_state r expanded in
    let at : toggle_row_expand rows i ≡ set rows i turned =
      toggle_row_expand-at rows i r h
      ∙ (λ k. set rows i (with_state r (next_state-opened r.expand_state closed k))) in
    (
      ap (λ rs. get_elem? rs i) at ∙ get-set rows i turned h,
      refl,
      rw shows refl,
      ap (λ rs. get_elem? rs j) at ∙ set-other rows i j turned ne,
    )
