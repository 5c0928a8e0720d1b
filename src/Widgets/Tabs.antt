-- ===== src/Widgets/Tabs.antt =====
-- atoms/MD2Tabs.tsx: the selected tab, the clicks, and the indicator with its timer.
-- The numbers of a page's layout, which are the browser's, are a parameter.
pub mod Timers
pub mod Placing
use metadata.Prelude.{
  ℕ, zero, suc, ◌+◌, Bool, true, false, not, ◌||◌, List, [], ◌∷◌, ◌++◌, Option, none, some,
  if◌then◌else◌, ◌==◌, length, ltb, filter_by, get_elem?,
}
use metadata.Prelude.Texts.{Text}

-- An index out of bounds is logged and counts as the first tab.
unfoldable pub selected_index : List Text → ℕ → ℕ
selected_index tabs selected = if ltb selected (length tabs) then selected else 0

-- The tab that `onSwitch` is called with when tab `i` is clicked.
unfoldable pub click : List Text → ℕ → ℕ → Option ℕ
unfolding selected_index
click tabs selected i = if i == selected_index tabs selected then none else some i

-- The component with the timers that it has started and that have not run. `setTimeout` gives the
-- handle `next_handle`, handles starting at 1.
pub record Tabs : Type 0 where
  pub timeout_handle : ℕ
  pub pending : List ℕ
  pub next_handle : ℕ
  pub is_mounted : Bool

unfoldable pub construct : Tabs
construct = record { timeout_handle = 0; pending = []; next_handle = 1; is_mounted = false }

-- `_setUpdateIndicatorTimeout`, whose result its callers drop.
unfoldable pub set_update_indicator_timeout : Tabs → Tabs
set_update_indicator_timeout t = record t {
  pending = t.pending ++ t.next_handle ∷ [];
  next_handle = t.next_handle + 1;
}

unfoldable pub component_did_mount : Tabs → Tabs
unfolding set_update_indicator_timeout
component_did_mount t = record (set_update_indicator_timeout t) { is_mounted = true }

unfoldable pub component_did_update : Tabs → Tabs
unfolding set_update_indicator_timeout
component_did_update t = set_update_indicator_timeout t

-- `clearTimeout` of the handle.
unfoldable pub component_will_unmount : Tabs → Tabs
component_will_unmount t = record t {
  pending = filter_by (λ h. not (h == t.timeout_handle)) t.pending;
  is_mounted = false;
}

-- The component after mounting and some updates.
unfoldable pub updated : ℕ → Tabs
unfolding component_did_mount component_did_update construct
updated zero = component_did_mount construct
updated (suc n) = component_did_update (updated n)

-- The browser's numbers.
pub record Numbers : Type 1 where
  pub Number : Type 0
  pub plus : Number → Number → Number
  pub minus : Number → Number → Number
  pub five : Number

pub record Rect (n : Numbers) : Type 0 where
  pub left : n.Number
  pub width : n.Number

pub record Indicator (n : Numbers) : Type 0 where
  pub left : Option n.Number
  pub width : Option n.Number
  pub display_block : Bool

-- `_updateIndicator`, where `tab_refs` holds one reference for each tab the component was built with,
-- without an element unless it is on the page, and `root` is the element around them. Nothing when
-- there is no reference at the selected index, where reading `current` throws.
unfoldable pub update_indicator :
    (n : Numbers)
    → List Text
    → ℕ
    → List (Option (Rect n))
    → Rect n
    → Indicator n
    → Option (Indicator n)
unfolding selected_index
update_indicator n tabs selected tab_refs root i =
    elim (get_elem? tab_refs (selected_index tabs selected)) [
      | none ↦ none
      | some none ↦ some i
      | some (some label) ↦ some (record {
        left = some (n.minus (n.minus label.left root.left) n.five);
        width = some (n.plus label.width n.five);
        display_block = true;
      })
    ]
