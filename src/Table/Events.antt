-- ===== src/Table/Events.antt =====
-- components/CustomTable.tsx: the handlers that load rows. Each runs up to the `await` of `reload`
-- (`start`) and goes on when the reply has come (`finish`); what it keeps in between is `Pending`.
pub mod Paging
pub mod Chains
pub mod Tokens
pub mod Requests
pub mod Races
pub mod Runs
pub mod ServedRuns
pub mod Turning
use metadata.Prelude.{
  ℕ, ◌+◌, ◌-◌, min, false, [], ◌∷◌, ◌++◌, Option, none, some, if◌then◌else◌, get_elem?, length,
  ◌==◌,
}
use metadata.Prelude.Texts.{Text, text_eq}
use metadata.Value.{is_empty, text_or}
use metadata.Rows.{ListRequest}
use metadata.Table.State.{
  SortOrder, asc, desc, is_asc, max_safe_integer, CustomTableState, CustomTable, LoadRequest,
  no_override, set_state_safe, reload, reload_done,
}

-- The offsets that the code passes to `_pageChanged`: -1, 0 and 1.
pub data Offset : Type 0 where
  back stay forward : Offset

abbrev pub moved : ℕ → Offset → ℕ
moved page back = page - 1
moved page stay = page
moved page forward = page + 1

pub data Event : Type 0 where
  page_changed : Offset → Event
  request_sort : Option Text → Event
  request_filter : Option Text → Event
  request_rows_per_page : ℕ → Event
  refresh : Event

pub data Pending : Type 0 where
  to_page : (new_current_page max_page_index : ℕ) → Pending
  to_first_page : Pending
  ignored : Pending

-- What `props.reload` comes to: the next page's token, or a rejected promise.
pub data Reply : Type 0 where
  token : Text → Reply
  rejected : Reply

pub record Started : Type 0 where
  pub table : CustomTable
  pub request : ListRequest
  pub pending : Pending

unfoldable pub load : CustomTable → LoadRequest → Pending → Started
unfolding reload
load c l p = let (c', request) = reload c l in record { table = c'; request = request; pending = p }

-- `Math.min(maxPageIndex, Math.max(0, currentPage + offset))`.
unfoldable pub new_current_page : CustomTableState → Offset → ℕ
new_current_page s offset = min s.max_page_index (moved s.current_page offset)

-- The objects that the handlers pass to `reload`.
abbrev pub page_load : Option Text → LoadRequest
page_load t = record no_override { page_token = some t }

abbrev pub sort_load : SortOrder → Text → LoadRequest
sort_load order sort_by = record no_override {
  page_token = some (some []);
  order_ascending = some (is_asc order);
  sort_by = some sort_by;
}

abbrev pub filter_load : Option Text → LoadRequest
filter_load filter_string = record no_override { filter = some (text_or filter_string []) }

abbrev pub rows_load : ℕ → LoadRequest
rows_load page_size = record no_override { page_size = some page_size; page_token = some (some []) }

unfoldable pub page_changed_start : CustomTable → Offset → Started
unfolding load new_current_page
page_changed_start c offset =
    let n = new_current_page c.state offset in
    load c (page_load (get_elem? c.state.token_list n)) (to_page n c.state.max_page_index)

unfoldable pub next_order : CustomTableState → Text → SortOrder
next_order s sort_by =
    if text_eq s.sort_by sort_by then (if is_asc s.sort_order then desc else asc) else asc

-- `setStateSafe` with a callback that reloads: nothing happens on an unmounted component.
unfoldable pub request_sort_start : CustomTable → Text → Option Started
unfolding load next_order
request_sort_start c sort_by =
    let order = next_order c.state sort_by in
    let c' = set_state_safe c (record c.state { sort_order = order; sort_by = sort_by }) in
    if c.is_mounted then some (load c' (sort_load order sort_by) to_first_page) else none

unfoldable pub start : CustomTable → Event → Option Started
unfolding load page_changed_start request_sort_start
start c (page_changed offset) = some (page_changed_start c offset)
start c (request_sort none) = none
start c (request_sort (some sort_by)) =
    if is_empty sort_by then none else request_sort_start c sort_by
start c (request_filter filter_string) = some (load c (filter_load filter_string) to_first_page)
start c (request_rows_per_page page_size) = some (load c (rows_load page_size) to_first_page)
start c refresh = some (load c no_override ignored)

-- `this.state.tokenList.push` writes the array itself, mounted or not.
unfoldable pub push_token : CustomTable → Text → CustomTable
push_token c t = record c { state = record c.state { token_list = c.state.token_list ++ t ∷ [] } }

-- The rest of `_pageChanged`.
unfoldable pub page_loaded :
    CustomTable → (new_current_page max_page_index : ℕ) → Text → CustomTable
unfolding push_token
page_loaded c n most new_page_token =
    if is_empty new_page_token
    then set_state_safe c (record c.state { current_page = n; max_page_index = n })
    else let c' = if n + 1 == length c.state.token_list then push_token c new_page_token else c in
      set_state_safe c' (record c'.state { current_page = n; max_page_index = most })

unfoldable pub reset_to_first_page : CustomTable → Text → CustomTable
reset_to_first_page c new_page_token = set_state_safe c (record c.state {
  current_page = 0;
  max_page_index = if is_empty new_page_token then 0 else max_safe_integer;
  token_list = if is_empty new_page_token then [] ∷ [] else [] ∷ new_page_token ∷ [];
})

unfoldable pub finish : CustomTable → Pending → Reply → CustomTable
unfolding page_loaded reset_to_first_page reload_done
finish c p rejected = reload_done c
finish c (to_page n most) (token t) = page_loaded (reload_done c) n most t
finish c to_first_page (token t) = reset_to_first_page (reload_done c) t
finish c ignored (token t) = reload_done c

-- A handler that is not overtaken by another one.
unfoldable pub perform : CustomTable → Event → Reply → CustomTable
unfolding start finish
perform c e r = elim (start c e) [ none ↦ c | some s ↦ finish s.table s.pending r ]

-- `handleFilterChange`, the firing of the debounced request, and `componentWillUnmount`.
unfoldable pub handle_filter_change : CustomTable → Text → CustomTable
handle_filter_change c value =
    if c.is_mounted
    then record c { state = record c.state { filter_string = value }; debounced = some value }
    else c

unfoldable pub debounce_fires : CustomTable → Option (CustomTable × Event)
debounce_fires c = elim c.debounced [
  | none ↦ none
  | some value ↦ some (record c { debounced = none }, request_filter (some value))
]

unfoldable pub component_will_unmount : CustomTable → CustomTable
component_will_unmount c = record c { is_mounted = false; debounced = none }
