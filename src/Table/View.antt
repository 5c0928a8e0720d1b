-- ===== src/Table/View.antt =====
-- components/CustomTable.tsx: what `render` shows, and the two selection sections.
pub mod Rendering
use metadata.Prelude.{
  ℕ, zero, suc, ◌+◌, ◌*◌, Bool, true, false, not, ◌&&◌, ◌||◌, List, [], ◌∷◌, map, Option, none,
  some, if◌then◌else◌, ◌==◌, ltb, leb, length, or_else,
}
use metadata.Prelude.Texts.{Text, text, text_eq}
use metadata.Value.{is_empty, text_or}
use metadata.Rows.{Row, Column, ExpandState, expanded, none_state, collapsed}
use metadata.Table.Row.{Percent, calculate_column_widths, Cell, custom_table_row}
use metadata.Table.State.{CustomTableState, SortOrder}
use metadata.Table.Selection.{is_selected}

-- The props that `render` reads. A callback is a flag that says whether it was passed.
pub record ViewProps : Type 0 where
  pub columns : List Column
  pub disable_paging : Bool
  pub disable_selection : Bool
  pub disable_sorting : Bool
  pub empty_message : Option Text
  pub filter_label : Option Text
  pub get_expand_component : Bool
  pub no_filter_box : Bool
  pub rows : List Row
  pub selected_ids : Option (List Text)
  pub use_radio_buttons : Bool

abbrev pub is_expanded : Option ExpandState → Bool
is_expanded (some expanded) = true
is_expanded _ = false

abbrev pub is_none_state : Option ExpandState → Bool
is_none_state (some none_state) = true
is_none_state _ = false

pub record HeaderSelection : Type 0 where
  pub checkbox : Bool
  pub indeterminate : Bool
  pub checked : Bool
  pub radio_space : Bool
  pub expand_space : Bool

unfoldable pub header_row_selection_section : ViewProps → Option HeaderSelection
header_row_selection_section p =
    let num_selected = length (or_else p.selected_ids []) in
    if not p.disable_selection || p.get_expand_component
    then some (record {
      checkbox = not p.disable_selection && not p.use_radio_buttons;
      indeterminate = not (num_selected == 0) && ltb num_selected (length p.rows);
      checked = not (num_selected == 0) && (num_selected == length p.rows);
      radio_space = not p.disable_selection && p.use_radio_buttons;
      expand_space = p.get_expand_component;
    })
    else none

pub record Toggle : Type 0 where
  pub checkbox : Bool
  pub radio : Bool
  pub checked : Bool
  pub expand_button : Bool
  pub rotated : Bool

pub record BodySelection : Type 0 where
  pub toggle : Option Toggle
  pub placeholder : Bool

unfoldable pub body_row_selection_section : ViewProps → Option ExpandState → Bool → BodySelection
body_row_selection_section p state selected = record {
  toggle =
      if (not p.disable_selection || p.get_expand_component) && not (is_none_state state)
      then some (record {
        checkbox = not p.disable_selection && not p.use_radio_buttons;
        radio = not p.disable_selection && p.use_radio_buttons;
        checked = selected;
        expand_button = p.get_expand_component;
        rotated = is_expanded state;
      })
      else none;
  placeholder = is_none_state state;
}

pub record ColumnHeader : Type 0 where
  pub width : Percent
  pub label : Text
  pub with_sort_label : Bool
  pub sortable : Bool
  pub active : Bool
  pub direction : Option SortOrder

-- `!!sortKey` and `sortBy === sortKey`.
abbrev has_key : Option Text → Bool
has_key none = false
has_key (some k) = not (is_empty k)

abbrev is_key : Text → Option Text → Bool
is_key sort_by none = false
is_key sort_by (some k) = text_eq sort_by k

pub column_headers : ViewProps → CustomTableState → List Column → List Percent → List ColumnHeader
column_headers p s (c ∷ cs) (w ∷ ws) =
    record {
      width = w;
      label = c.label;
      with_sort_label = not p.disable_sorting;
      sortable = has_key c.sort_key;
      active = is_key s.sort_by c.sort_key;
      direction = if has_key c.sort_key then some s.sort_order else none;
    }
    ∷ column_headers p s cs ws
column_headers p s _ _ = []

-- `_expandButtonToggled`: the caller's `toggleExpansion`, if it is given, is called with the row's
-- index, and the click goes no further, so that the row is not selected by it. `S` is the caller's state.
unfoldable pub expand_button_toggled {ℓ} : {S : Type ℓ} → Option (S → ℕ → S) → S → ℕ → S
expand_button_toggled none s i = s
expand_button_toggled (some toggle_expansion) s i = toggle_expansion s i

pub record RowView : Type 0 where
  pub selected : Bool
  pub selection : BodySelection
  pub rendered : Option (List Cell)
  pub opened : Bool
  pub expand_component : Option ℕ

abbrev pub shown_row : ViewProps → ℕ → Row → RowView
shown_row p i r = record {
  selected = is_selected p.selected_ids r.id;
  selection = body_row_selection_section p r.expand_state (is_selected p.selected_ids r.id);
  rendered = custom_table_row r p.columns;
  opened = is_expanded r.expand_state;
  expand_component = if is_expanded r.expand_state && p.get_expand_component then some i else none;
}

-- Nothing for a row with a wrong number of cells, which is logged and left out.
pub row_view : ViewProps → ℕ → Row → Option RowView
row_view p i r =
    if not (length r.other_fields == length p.columns) then none else some (shown_row p i r)

pub row_views : ViewProps → ℕ → List Row → List (Option RowView)
unfolding row_view
row_views p i [] = []
row_views p i (r ∷ rows) = row_view p i r ∷ row_views p (suc i) rows

pub record Footer : Type 0 where
  pub rows_per_page : ℕ
  pub back_disabled : Bool
  pub forward_disabled : Bool

pub record TableView : Type 0 where
  pub filter_box : Option (Text × Text)
  pub header_selection : Option HeaderSelection
  pub headers : List ColumnHeader
  pub is_busy : Bool
  pub empty_message : Option Text
  pub rows : List (Option RowView)
  pub footer : Option Footer

unfoldable pub footer_of : CustomTableState → Footer
footer_of s = record {
  rows_per_page = s.page_size;
  back_disabled = s.current_page == 0;
  forward_disabled = leb s.max_page_index s.current_page;
}

-- The message is shown for a table without rows that is not busy, if it is not empty.
shown_message : ViewProps → CustomTableState → Option Text
shown_message p s =
    if (length p.rows == 0) && not (is_empty (or_else p.empty_message [])) && not s.is_busy
    then p.empty_message
    else none

unfoldable pub render : ViewProps → CustomTableState → TableView
unfolding column_headers row_views footer_of shown_message
render p s = record {
  filter_box =
      if p.no_filter_box
      then none
      else some (text_or p.filter_label (text "Filter"), s.filter_string);
  header_selection = header_row_selection_section p;
  headers = column_headers p s p.columns (calculate_column_widths p.columns);
  is_busy = s.is_busy;
  empty_message = shown_message p s;
  rows = row_views p 0 p.rows;
  footer = if p.disable_paging then none else some (footer_of s);
}
