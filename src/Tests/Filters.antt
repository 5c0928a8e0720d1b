-- ===== src/Tests/Filters.antt =====
-- Filters, and the rows of the list pages, on small inputs.
use mathlib.Core.List.{Perm}
use mathlib.Core.List.Perm
use metadata.Prelude.{◌≡◌, refl, true, false, [], ◌∷◌, ◌++◌, Option, none, some, filter_by}
use metadata.Prelude.Texts.{Text, text}
use metadata.Rows.{Row, ListRequest, collapsed}
use metadata.Json.{Json, Fields, Items}
use metadata.Utils.Group.{group_rows}
use metadata.Utils.Group.Kept.{ids, all_hidden}
use metadata.Utils.Filter.{row_filter_fn, wanted, is_lower_word, rows_having}
use metadata.Lists.Rows.{Builtins, filtered, grouped}
use metadata.Lists.Rows.Shown.{is_kept, grouped-ids}
use metadata.Table.View.{ViewProps}
use metadata.Tests.Rows.{rows, columns, by_name, not_numbers, first_row}

-- A filter that asks for the rows with a text: `[{"string_value": "a"}]` under the key `predicates`.
abbrev filter_json : Text → Option Json
filter_json t = some (
    Json.obj (
      Fields.field (text "predicates")
        (Json.arr (
          Items.cons
            (Json.obj (Fields.field (text "string_value") (Json.str (text "a")) Fields.end))
            Items.nil))
        Fields.end))

abbrev text_of : Option Json → Text
text_of none = text "undefined"
text_of (some (Json.str s)) = s
text_of (some j) = text "[object Object]"

abbrev filter_request : Text → ListRequest
filter_request f = record by_name { filter = some f }

abbrev lower : Text → Text
lower t = t

abbrev decoded : Text → Option Text
decoded t = some t

xyz-is_lower_word : is_lower_word (text "xyz") ≡ true
unfolding is_lower_word
xyz-is_lower_word = refl

percent-word : is_lower_word (text "100%") ≡ false
unfolding is_lower_word
percent-word = refl

braces-wanted :
    wanted lower decoded filter_json text_of (text "{}") ≡ rows_having (some (Json.str (text "a")))
unfolding wanted
braces-wanted = refl

abbrev never_decoded : Text → Option Text
never_decoded t = none

abbrev pub builtins : Builtins
builtins = record {
  to_lower_case = lower;
  decode_uri_component = decoded;
  parse_json = filter_json;
  to_text = text_of;
  to_number = not_numbers;
  sort = λ f rs. rs;
}

rows-filtered : filtered builtins by_name rows ≡ some rows
unfolding filtered row_filter_fn
rows-filtered = refl

rows-grouped : grouped builtins by_name columns rows ≡ some (group_rows rows)
unfolding grouped filtered row_filter_fn
rows-grouped = refl

grouped-ids_example :
    Perm
      (ids (group_rows rows).collapsed_rows ++ ids (all_hidden (group_rows rows).expanded_rows))
      (ids (filter_by (is_kept builtins by_name) rows))
grouped-ids_example =
    grouped-ids builtins by_name columns rows (group_rows rows) (λ f rs. Perm.refl rs) rows-grouped

abbrev expandable : Row
expandable = record first_row { expand_state = some collapsed }

abbrev expand_props : ViewProps
expand_props = record {
  columns = [];
  disable_paging = false;
  disable_selection = true;
  disable_sorting = false;
  empty_message = none;
  filter_label = none;
  get_expand_component = true;
  no_filter_box = false;
  rows = first_row ∷ expandable ∷ [];
  selected_ids = none;
  use_radio_buttons = false;
}
