-- ===== src/Table/State.antt =====
-- components/CustomTable.tsx: the component's state, its constructor, and `reload`, cut in two at
-- its `await`: what happens before the caller's `props.reload` is waited for, and after it.
use metadata.Prelude.{
  ℕ, Bool, true, false, not, ◌&&◌, List, [], ◌∷◌, ◌++◌, Option, none, some, if◌then◌else◌,
  get_elem?, or_else,
}
use metadata.Prelude.Texts.{Text, text}
use metadata.Value.{is_empty, text_or}
use metadata.Rows.{Column, ListRequest}

pub data SortOrder : Type 0 where
  asc desc : SortOrder

abbrev pub is_asc : SortOrder → Bool
is_asc asc = true
is_asc desc = false

-- `Number.MAX_SAFE_INTEGER`.
abbrev pub max_safe_integer : ℕ
max_safe_integer = 9007199254740991

pub record CustomTableState : Type 0 where
  pub current_page : ℕ
  pub filter_string : Text
  pub filter_string_encoded : Text
  pub is_busy : Bool
  pub max_page_index : ℕ
  pub sort_order : SortOrder
  pub page_size : ℕ
  pub sort_by : Text
  pub token_list : List Text

-- The component: its state, `_isMounted`, and the text that the debounced filter request waits
-- with. lodash's `debounce` calls with the last text, once the calls have paused.
pub record CustomTable : Type 0 where
  pub state : CustomTableState
  pub is_mounted : Bool
  pub debounced : Option Text

pub first_sort_key : List Column → Text
first_sort_key [] = []
first_sort_key (c ∷ cs) = text_or c.sort_key []

unfoldable pub construct : List Column → Option Text → Option SortOrder → CustomTable
unfolding first_sort_key
construct columns initial_sort_column initial_sort_order = record {
  state = record {
    current_page = 0;
    filter_string = [];
    filter_string_encoded = [];
    is_busy = false;
    max_page_index = max_safe_integer;
    sort_order = or_else initial_sort_order desc;
    page_size = 10;
    sort_by = text_or initial_sort_column (first_sort_key columns);
    token_list = [] ∷ [];
  };
  is_mounted = true;
  debounced = none;
}

-- The argument of `reload`: which properties the object has. `pageToken` may be there and hold
-- undefined, which `Object.assign` copies.
pub record LoadRequest : Type 0 where
  pub filter : Option Text
  pub order_ascending : Option Bool
  pub page_size : Option ℕ
  pub page_token : Option (Option Text)
  pub sort_by : Option Text

abbrev pub no_override : LoadRequest
no_override = record {
  filter = none;
  order_ascending = none;
  page_size = none;
  page_token = none;
  sort_by = none;
}

-- `Object.assign` of the state's request and the caller's.
pub record Assigned : Type 0 where
  pub filter : Text
  pub order_ascending : Bool
  pub page_size : ℕ
  pub page_token : Option Text
  pub sort_by : Text

unfoldable pub assign : CustomTableState → LoadRequest → Assigned
assign s l = record {
  filter = or_else l.filter s.filter_string_encoded;
  order_ascending = or_else l.order_ascending (is_asc s.sort_order);
  page_size = or_else l.page_size s.page_size;
  page_token = or_else l.page_token (get_elem? s.token_list s.current_page);
  sort_by = or_else l.sort_by s.sort_by;
}

abbrev pub desc_suffix : Text
desc_suffix = text " desc"

unfoldable pub sent_sort_by : Text → Bool → Text
sent_sort_by sort_by ascending =
    if not (is_empty sort_by) && not ascending then sort_by ++ desc_suffix else sort_by

-- `setStateSafe`: the state is written only while the component is mounted.
abbrev pub set_state_safe : CustomTable → CustomTableState → CustomTable
set_state_safe c s = if c.is_mounted then record c { state = s } else c

unfoldable pub request_of : Assigned → ListRequest
request_of a = record {
  filter = some a.filter;
  order_ascending = a.order_ascending;
  page_size = some a.page_size;
  page_token = a.page_token;
  sort_by = some (sent_sort_by a.sort_by a.order_ascending);
}

unfoldable pub busy_with : CustomTableState → Assigned → CustomTableState
busy_with s a = record s {
  filter_string_encoded = a.filter;
  is_busy = true;
  page_size = a.page_size;
  sort_by = a.sort_by;
  sort_order = if a.order_ascending then asc else desc;
}

-- `reload` up to its `await`: the new component, and the request that `props.reload` is given.
unfoldable pub reload : CustomTable → LoadRequest → CustomTable × ListRequest
unfolding assign sent_sort_by request_of busy_with
reload c l = let a = assign c.state l in (set_state_safe c (busy_with c.state a), request_of a)

-- The `finally` of `reload`.
unfoldable pub reload_done : CustomTable → CustomTable
reload_done c = set_state_safe c (record c.state { is_busy = false })
