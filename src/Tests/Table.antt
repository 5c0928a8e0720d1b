-- ===== src/Tests/Table.antt =====
-- The table component on small inputs.
use mathlib.Core.Quot
use metadata.Prelude.{
  get_elem?, ◌≡◌, ◌≢◌, refl, true, false, not, List, [], ◌∷◌, none, some, ◌⊎◌, inr, length, arith,
  if◌then◌else◌,
}
use metadata.Prelude.Texts.{Text, text, text_eq}
use metadata.Value.{num, str}
use metadata.Rows.{Row, Column, ListRequest}
use metadata.Table.State.{CustomTable, construct, max_safe_integer}
use metadata.Table.Events.{
  Started, Event, Reply, request_rows_per_page, request_sort, refresh, rejected, page_changed, stay,
  forward, token, perform, finish, to_page, to_first_page, start,
}
use metadata.Table.Events.Paging.{IsValid, construct-IsValid}
use metadata.Table.Events.Tokens.{served, IsPaged, construct-IsPaged}
use metadata.Table.Events.Runs.{perform_all, perform_all-construct}
use metadata.Table.Events.ServedRuns.{served_all, served_all-construct}
use metadata.Table.Events.Races.{overtaken-refresh}
use metadata.Table.Selection.{SelectionProps, handle_click, is_selected}
use metadata.Table.Selection.Sets.{Ids, clicked, click, click_comm}
use metadata.Table.Selection.Toggling.{AreDistinct, handle_click-toggles}
use metadata.Table.Row.{Cell}
use metadata.Table.View.{ViewProps, RowView, row_view}
use metadata.Table.View.Rendering.{row_view-renders}

abbrev pub name_column : Column
name_column = record {
  flex = some 2;
  label = text "Name";
  sort_key = some (text "name");
  custom_renderer = false;
}

abbrev pub id_column : Column
id_column = record {
  flex = none;
  label = text "ID";
  sort_key = some (text "id");
  custom_renderer = false;
}

abbrev new_table : CustomTable
new_table = construct (name_column ∷ id_column ∷ []) none none

-- The server names the next page by one more letter than this page's token.
abbrev next_token : ListRequest → Text
next_token r = elim r.page_token [ none ↦ text "x" | some t ↦ b'p' ∷ t ]

abbrev first_load : CustomTable
first_load = perform new_table (page_changed stay) (token (text "p"))

first_load-tokens : first_load.state.token_list ≡ [] ∷ text "p" ∷ []
unfolding construct perform
first_load-tokens = refl

second_page-token :
    (perform first_load (page_changed forward) (token (text "pp"))).state.token_list
    ≡ [] ∷ text "p" ∷ text "pp" ∷ []
unfolding construct perform
second_page-token = refl

-- A reply without a token makes the page the last one.
last_page-index : (perform first_load (page_changed forward) (token [])).state.max_page_index ≡ 1
unfolding construct perform
last_page-index = refl

first_load-IsValid : IsValid first_load.state
first_load-IsValid = construct-IsValid (name_column ∷ id_column ∷ []) none none (text "p")

first_load-is_mounted : first_load.is_mounted ≡ true
unfolding construct perform
first_load-is_mounted = refl

abbrev three_events : List (Event × Reply)
three_events =
    (page_changed forward, token (text "pp"))
    ∷ (request_sort (some (text "id")), rejected)
    ∷ (refresh, token [])
    ∷ []

perform_all-construct_example :
    IsValid
      (perform_all (perform new_table (page_changed stay) (token (text "p"))) three_events).state
perform_all-construct_example =
    perform_all-construct (name_column ∷ id_column ∷ []) none none (text "p") three_events

abbrev loaded_table : CustomTable
loaded_table = served next_token new_table (page_changed stay)

loaded_table-is_mounted : loaded_table.is_mounted ≡ true
unfolding construct served start finish
loaded_table-is_mounted = refl

loaded_table-IsValid : IsValid loaded_table.state
unfolding construct served start finish
loaded_table-IsValid = record {
  within = ground arith;
  capped = ground arith;
  ahead = inr (ground arith);
}

loaded_table-IsPaged : IsPaged next_token loaded_table
loaded_table-IsPaged = construct-IsPaged next_token (name_column ∷ id_column ∷ []) none none

abbrev turns : List Event
turns = page_changed forward ∷ request_rows_per_page 20 ∷ page_changed forward ∷ []

served_all-construct_example :
    IsPaged next_token
      (served_all next_token (served next_token new_table (page_changed stay)) turns)
served_all-construct_example =
    served_all-construct next_token (name_column ∷ id_column ∷ []) none none turns
      (refl, (refl, (refl, tt)))

abbrev overtaken : CustomTable
overtaken =
    finish (finish first_load to_first_page (token (text "q"))) (to_page 2 max_safe_integer)
      (token (text "ppp"))

overtaken-refresh_example :
    (overtaken.state.current_page ≡ 2)
    × (get_elem? overtaken.state.token_list 2 ≡ none)
    × (s : Started) × (start overtaken refresh ≡ some s)
    × (s.request.page_token ≡ none)
overtaken-refresh_example =
    overtaken-refresh first_load 2 max_safe_integer (text "q") (text "ppp") first_load-is_mounted
      (omega arith)

abbrev two_rows : List Row
two_rows =
    record {
      expand_state = none;
      error = none;
      id = text "a";
      other_fields = str (text "A") ∷ num 1 ∷ [];
    }
    ∷ record {
      expand_state = none;
      error = none;
      id = text "b";
      other_fields = str (text "B") ∷ [];
    }
    ∷ []

abbrev checkboxes : SelectionProps
checkboxes = record {
  disable_selection = false;
  rows = two_rows;
  selected_ids = some (text "a" ∷ []);
  use_radio_buttons = false;
}

handle_click-toggles_example :
    (new : List Text) × (handle_click checkboxes (text "b") ≡ some new)
    × AreDistinct new
    × (is_selected (some new) (text "a") ≡ (
        if text_eq (text "b") (text "a")
        then not (is_selected (some (text "a" ∷ [])) (text "b"))
        else is_selected (some (text "a" ∷ [])) (text "a")))
handle_click-toggles_example =
    handle_click-toggles checkboxes (text "a" ∷ []) (text "b") (text "a") refl refl refl (refl, tt)

abbrev table_props : ViewProps
table_props = record {
  columns = name_column ∷ id_column ∷ [];
  disable_paging = false;
  disable_selection = true;
  disable_sorting = false;
  empty_message = none;
  filter_label = none;
  get_expand_component = false;
  no_filter_box = false;
  rows = two_rows;
  selected_ids = none;
  use_radio_buttons = false;
}

abbrev short_row : Row
short_row = record {
  expand_state = none;
  error = none;
  id = text "b";
  other_fields = str (text "B") ∷ [];
}

row_view-renders_example :
    ((row_view table_props 1 short_row ≡ none)
      × (length short_row.other_fields ≢ length table_props.columns))
    ⊎ ((v : RowView) × (row_view table_props 1 short_row ≡ some v)
        × (length short_row.other_fields ≡ length table_props.columns)
        × ((cs : List Cell) × (v.rendered ≡ some cs) × (length cs ≡ length table_props.columns)))
row_view-renders_example = row_view-renders table_props 1 short_row

abbrev one_id : Ids
one_id = (text "a" ∷ [], (refl, tt))

click_comm_example :
    (handle_click checkboxes (text "b") ≡ some (clicked (text "b") one_id).0)
    × (click (text "b") (Quot.mk one_id) ≡ Quot.mk (clicked (text "b") one_id))
    × (click (text "b") (click (text "a") (Quot.mk one_id))
        ≡ click (text "a") (click (text "b") (Quot.mk one_id)))
    × (click (text "b") (click (text "b") (Quot.mk one_id)) ≡ Quot.mk one_id)
click_comm_example = click_comm checkboxes (text "b") (text "a") one_id refl refl refl
