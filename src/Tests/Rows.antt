-- ===== src/Tests/Rows.antt =====
-- Grouping, ordering and filtering on small inputs.
use mathlib.Core.List.{Perm}
use metadata.Prelude.{
  ℕ, ◌≡◌, refl, true, false, List, [], ◌∷◌, ◌++◌, map, Option, none, some, get_elem?,
}
use metadata.Prelude.Texts.{Text, text, ends_with, text_lt}
use metadata.Value.{num, str, value_lt, is_empty}
use metadata.Rows.{Row, Column, ListRequest, group_key, none_state}
use metadata.Table.State.{CustomTable, construct, no_override, assign, reload, desc_suffix}
use metadata.Utils.Group.{
  group_rows, flattened_rows, flatten_from, add_row, collapsed_row, get_expanded_row, hide,
}
use metadata.Utils.Group.Keys.{rows_with}
use metadata.Utils.Group.Shown.{group_rows-group, marked}
use metadata.Utils.Group.Kept.{group_rows-perm, ids, all_hidden}
use metadata.Utils.Compare.{row_compare_fn, sort_value, sort_index, cleaned_sort_by}
use metadata.Prelude.{◌↔◌}
use metadata.Utils.Compare.{minus_one}
use metadata.Utils.Compare.Ordering.{row_compare_fn-reload}

abbrev pub row : Text → Text → ℕ → Row
row id name n = record {
  expand_state = none;
  error = none;
  id = id;
  other_fields = str name ∷ num n ∷ [];
}

abbrev pub rows : List Row
rows =
    row (text "r1") (text "A") 1 ∷ row (text "r2") (text "B") 2 ∷ row (text "r3") (text "A") 3 ∷ []

abbrev pub columns : List Column
columns =
    record {
      flex = none;
      label = text "Name";
      sort_key = some (text "name");
      custom_renderer = false;
    }
    ∷ record {
      flex = none;
      label = text "ID";
      sort_key = some (text "id");
      custom_renderer = false;
    }
    ∷ []

group_rows-rows :
    (group_rows rows).collapsed_rows
    ≡ row (text "r1") (text "A") 1
      ∷ record (row (text "r2") (text "B") 2) { expand_state = some none_state }
      ∷ []
unfolding group_rows flattened_rows flatten_from add_row collapsed_row
group_rows-rows = refl

abbrev pub first_row : Row
first_row = row (text "r1") (text "A") 1

group_rows-first : get_elem? (group_rows rows).collapsed_rows 0 ≡ some first_row
unfolding group_rows flattened_rows flatten_from add_row collapsed_row
group_rows-first = refl

group_rows-group_example :
    (first : Row) × (rest : List Row) × (rows_with (group_key first_row) rows ≡ first ∷ rest)
    × (first_row ≡ marked first rest)
    × (get_expanded_row (group_rows rows).expanded_rows 0 ≡ map hide rest)
group_rows-group_example = group_rows-group rows 0 first_row group_rows-first

group_rows-perm_example :
    Perm
      (ids (group_rows rows).collapsed_rows ++ ids (all_hidden (group_rows rows).expanded_rows))
      (ids rows)
group_rows-perm_example = group_rows-perm rows

-- Texts are numbers nowhere in these runs.
abbrev pub not_numbers : Text → Option ℕ
not_numbers t = none

abbrev new_table : CustomTable
new_table = construct columns none none

new_table-some_key : is_empty (assign new_table.state no_override).sort_by ≡ false
unfolding construct assign
new_table-some_key = refl

new_table-plain : ends_with (assign new_table.state no_override).sort_by desc_suffix ≡ false
unfolding construct assign ends_with
new_table-plain = refl

row_compare_fn-reload_example :
    (row_compare_fn not_numbers
        (reload new_table no_override).1
        columns
        (row (text "r1") (text "A") 1)
        (row (text "r2") (text "B") 2)
      ≡ minus_one)
    ↔ (value_lt not_numbers
          (sort_value
            (sort_index columns (assign new_table.state no_override).sort_by)
            (row (text "r1") (text "A") 1))
          (sort_value
            (sort_index columns (assign new_table.state no_override).sort_by)
            (row (text "r2") (text "B") 2))
        ≡ (assign new_table.state no_override).order_ascending)
row_compare_fn-reload_example =
    row_compare_fn-reload not_numbers new_table no_override columns (row (text "r1") (text "A") 1)
      (row (text "r2") (text "B") 2) new_table-some_key new_table-plain

abbrev pub by_name : ListRequest
by_name = record {
  filter = none;
  order_ascending = true;
  page_size = some 10;
  page_token = none;
  sort_by = some (text "name");
}

same_name :
    value_lt not_numbers
      (sort_value
        (sort_index columns (cleaned_sort_by (text "name")))
        (row (text "r1") (text "A") 1))
      (sort_value
        (sort_index columns (cleaned_sort_by (text "name")))
        (row (text "r3") (text "A") 3))
    ≡ false
unfolding cleaned_sort_by value_lt ends_with text_lt
same_name = refl
