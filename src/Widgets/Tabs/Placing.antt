-- ===== src/Widgets/Tabs/Placing.antt =====
-- Where the indicator of the tabs goes.
use metadata.Prelude.{
  ℕ, suc, zero, ◌≡◌, refl, ◌<◌, true, List, [], ◌∷◌, Option, none, some, get_elem?, arith, length,
}
use metadata.Prelude.Texts.{Text}
use metadata.Widgets.Tabs.{selected_index, Numbers, Rect, Indicator, update_indicator}
use metadata.Widgets.Tabs.Timers.{selected_index-bound}

get_elem?-lt {ℓ} :
    {A : Type ℓ} (xs : List A) (i : ℕ) → i < length xs → (a : A) × (get_elem? xs i ≡ some a)
get_elem?-lt [] i h = absurd (omega arith)
get_elem?-lt (x ∷ xs) zero h = (x, refl)
get_elem?-lt (x ∷ xs) (suc i) h = get_elem?-lt xs i (ground arith)

placed :
    (n : Numbers) (tabs : List Text) (selected : ℕ) (tab_refs : List (Option (Rect n)))
    (root : Rect n) (i : Indicator n) (ref : Option (Rect n))
    → get_elem? tab_refs (selected_index tabs selected) ≡ some ref
    → (i' : Indicator n) × (update_indicator n tabs selected tab_refs root i ≡ some i')
unfolding update_indicator
placed n tabs selected tab_refs root i none at = (i, rw (at, update_indicator) refl)
placed n tabs selected tab_refs root i (some label) at = (
  record {
    left = some (n.minus (n.minus label.left root.left) n.five);
    width = some (n.plus label.width n.five);
    display_block = true;
  },
  rw (at, update_indicator) refl,
)

-- The indicator is updated without failing when there are tabs, as many as the component was built
-- with, whatever tab is selected.
update_indicator-returns :
    (n : Numbers) (tabs : List Text) (selected : ℕ) (tab_refs : List (Option (Rect n)))
    (root : Rect n) (i : Indicator n)
    → 0 < length tabs
    → length tab_refs ≡ length tabs
    → (i' : Indicator n) × (update_indicator n tabs selected tab_refs root i ≡ some i')
update_indicator-returns n tabs selected tab_refs root i h same =
    let bound = selected_index-bound tabs selected h in
    let (ref, at) = get_elem?-lt tab_refs (selected_index tabs selected) (omega arith) in
    placed n tabs selected tab_refs root i ref at
