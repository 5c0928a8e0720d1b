-- ===== src/Table/Selection.antt =====
-- components/CustomTable.tsx: selecting rows. The table keeps no selection: it calls
-- `updateSelection` with a new list, which the caller passes back as `selectedIds`.
pub mod Toggling
pub mod Sets
use metadata.Prelude.{
  ℕ, suc, Bool, true, false, not, List, [], ◌∷◌, ◌++◌, map, Option, none, some, if◌then◌else◌,
  is_some, take, drop, find_index, or_else,
}
use metadata.Prelude.Texts.{Text, text_eq}
use metadata.Rows.{Row}

pub record SelectionProps : Type 0 where
  pub disable_selection : Bool
  pub rows : List Row
  pub selected_ids : Option (List Text)
  pub use_radio_buttons : Bool

-- `selectedIds.indexOf(id)`, with nothing for -1.
pub index_of : List Text → Text → Option ℕ
index_of ids id = find_index (λ i. text_eq i id) ids

-- The list that `updateSelection` is called with; nothing when it is not called.
unfoldable pub handle_select_all_click : SelectionProps → Bool → Option (List Text)
handle_select_all_click p checked =
    if p.disable_selection then none else some (if checked then map (λ r. r.id) p.rows else [])

pub toggled : List Text → Text → List Text
unfolding index_of
toggled ids id = elim (index_of ids id) [
  | none ↦ ids ++ id ∷ []
  | some i ↦ take i ids ++ drop (suc i) ids
]

unfoldable pub handle_click : SelectionProps → Text → Option (List Text)
unfolding toggled
handle_click p id =
    if p.disable_selection
    then none
    else some (if p.use_radio_buttons then id ∷ [] else toggled (or_else p.selected_ids []) id)

unfoldable pub is_selected : Option (List Text) → Text → Bool
unfolding index_of
is_selected none id = false
is_selected (some ids) id = is_some (index_of ids id)
