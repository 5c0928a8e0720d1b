-- ===== src/Table/Schedule/Leaving.antt =====
-- components/CustomTable.tsx: what still happens to a table that has been unmounted.
use mathlib.Core.Path.{subst}
use metadata.Prelude.{◌≡◌, refl, sym, get_elem?, false, Option, none, some, arith}
use metadata.Prelude.Texts.{Text}
use metadata.Table.State.{
  no_override, LoadRequest, CustomTable, CustomTableState, set_state_safe, reload, reload_done,
}
use metadata.Table.Events.{
  page_load, filter_load, rows_load, new_current_page, Event, page_changed, request_sort,
  request_filter, request_rows_per_page, refresh, Pending, to_page, to_first_page, ignored, Reply,
  token, rejected, Started, start, finish, load, page_changed_start, request_sort_start,
  page_loaded, push_token, reset_to_first_page, handle_filter_change, debounce_fires,
  component_will_unmount,
}
use metadata.Table.Schedule.{World, Step, handled, answered, typed, fired, left, Reach, here, next}

-- A table that is not mounted and has the given state, but for the tokens of its pages.
pub record IsLeft (s : CustomTableState) (c : CustomTable) : Type 0 where
  pub gone : c.is_mounted ≡ false
  pub waiting : c.debounced ≡ none
  pub frozen : record c.state { token_list = s.token_list } ≡ s

set_state_safe-gone :
    (c : CustomTable) (s : CustomTableState) → c.is_mounted ≡ false → set_state_safe c s ≡ c
set_state_safe-gone c s m = rw m refl

finish-IsLeft :
    (s : CustomTableState) (c : CustomTable) (p : Pending) (r : Reply)
    → IsLeft s c
    → IsLeft s (finish c p r)
unfolding finish page_loaded reset_to_first_page reload_done push_token
finish-IsLeft s c p rejected h = ground (arith, h.gone, h.waiting, h.frozen)
finish-IsLeft s c (to_page n most) (token t) h = ground (arith, h.gone, h.waiting, h.frozen)
finish-IsLeft s c to_first_page (token t) h = ground (arith, h.gone, h.waiting, h.frozen)
finish-IsLeft s c ignored (token t) h = ground (arith, h.gone, h.waiting, h.frozen)

abbrev IsLeftAt : CustomTableState → Option Started → Type 0
IsLeftAt s none = Unit
IsLeftAt s (some started) = IsLeft s started.table

reload-IsLeft :
    (s : CustomTableState) (c : CustomTable) (l : LoadRequest)
    → IsLeft s c
    → IsLeft s (reload c l).0
unfolding reload
reload-IsLeft s c l h = subst (IsLeft s) (sym (set_state_safe-gone c _ h.gone)) h

start-IsLeft :
    (s : CustomTableState) (c : CustomTable) (e : Event) → IsLeft s c → IsLeftAt s (start c e)
unfolding start page_changed_start request_sort_start load
start-IsLeft s c (page_changed o) h =
    reload-IsLeft s c (page_load (get_elem? c.state.token_list (new_current_page c.state o))) h
start-IsLeft s c (request_sort none) h = tt
start-IsLeft s c (request_sort (some k)) h = ground (arith, h.gone)
start-IsLeft s c (request_filter f) h = reload-IsLeft s c (filter_load f) h
start-IsLeft s c (request_rows_per_page n) h = reload-IsLeft s c (rows_load n) h
start-IsLeft s c refresh h = reload-IsLeft s c no_override h

handle_filter_change-IsLeft :
    (s : CustomTableState) (c : CustomTable) (value : Text)
    → IsLeft s c
    → IsLeft s (handle_filter_change c value)
unfolding handle_filter_change
handle_filter_change-IsLeft s c value h = ground (arith, h.gone, h.waiting, h.frozen)

not_fired :
    (c d : CustomTable) (e : Event) → c.debounced ≡ none → ¬ (debounce_fires c ≡ some (d, e))
unfolding debounce_fires
not_fired c d e m = grind arith

component_will_unmount-IsLeft :
    (s : CustomTableState) (c : CustomTable) → IsLeft s c → IsLeft s (component_will_unmount c)
unfolding component_will_unmount
component_will_unmount-IsLeft s c h = record { gone = refl; waiting = refl; frozen = h.frozen }

Step-IsLeft : (s : CustomTableState) {w v : World} → Step w v → IsLeft s w.table → IsLeft s v.table
Step-IsLeft s (handled w e t eq) h = subst (IsLeftAt s) eq (start-IsLeft s w.table e h)
Step-IsLeft s (answered w before after p r e) h = finish-IsLeft s w.table p r h
Step-IsLeft s (typed w value) h = handle_filter_change-IsLeft s w.table value h
Step-IsLeft s (fired w c e t f eq) h = absurd (not_fired w.table c e h.waiting f)
Step-IsLeft s (left w) h = component_will_unmount-IsLeft s w.table h

Reach-IsLeft :
    (s : CustomTableState) {w v : World} → IsLeft s w.table → Reach w v → IsLeft s v.table
Reach-IsLeft s h here = h
Reach-IsLeft s h (next reach step) = Step-IsLeft s step (Reach-IsLeft s h reach)

-- Once a table has been unmounted nothing that still happens mounts it again, lets a debounced
-- filter fire or changes its state, the list of page tokens excepted: neither the events nor the
-- replies to the requests that were in flight.
unmounted-frozen :
    (w v : World)
    → Reach (record w { table = component_will_unmount w.table }) v
    → IsLeft w.table.state v.table
unfolding component_will_unmount
unmounted-frozen w v reach =
    Reach-IsLeft w.table.state (record { gone = refl; waiting = refl; frozen = refl }) reach
