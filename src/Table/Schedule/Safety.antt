-- ===== src/Table/Schedule/Safety.antt =====
-- components/CustomTable.tsx: what holds of a table whatever the order of its events and replies.
use mathlib.Core.Path.{subst}
use metadata.Prelude.{
  ℕ, ◌≡◌, ◌≤◌, ◌<◌, refl, Bool, true, false, List, [], ◌∷◌, ◌++◌, Option, none, some, if◌then◌else◌,
  arith, get_elem?, length, length-append, All, All-append, All-without,
}
use metadata.Prelude.Texts.{Text}
use metadata.Value.{is_empty}
use metadata.Rows.{Column}
use metadata.Table.State.{
  CustomTable, CustomTableState, SortOrder, set_state_safe, no_override, construct, reload,
  reload_done, LoadRequest, busy_with,
}
use metadata.Table.Events.{
  Event, page_changed, request_sort, request_filter, request_rows_per_page, refresh, Pending,
  to_page, to_first_page, ignored, Reply, token, rejected, Started, start, finish, load,
  page_changed_start, request_sort_start, new_current_page, page_loaded, push_token,
  reset_to_first_page, page_load, sort_load, filter_load, rows_load, next_order,
  handle_filter_change, debounce_fires, component_will_unmount,
}
use metadata.Table.Events.Paging.{new_current_page-le, sorted_by}
use metadata.Table.Schedule.{
  World, opened, launched, received, Step, handled, answered, typed, fired, left, Reach, here, next,
}

-- The page shown is not past the last one known, and the first page's token is there.
pub record IsCapped (s : CustomTableState) : Type 0 where
  pub capped : s.current_page ≤ s.max_page_index
  pub first : get_elem? s.token_list 0 ≡ some []

abbrev pub IsBounded : Pending → Type 0
IsBounded (to_page n most) = n ≤ most
IsBounded to_first_page = Unit
IsBounded ignored = Unit

get_elem?-append :
    (xs ys : List Text) (t : Text) → get_elem? xs 0 ≡ some t → get_elem? (xs ++ ys) 0 ≡ some t
get_elem?-append [] ys t e = grind arith
get_elem?-append (x ∷ xs) ys t e = e

reload-IsCapped :
    (c : CustomTable) (l : LoadRequest) → IsCapped c.state → IsCapped (reload c l).0.state
unfolding reload busy_with
reload-IsCapped c l v = ground (arith, v.capped, v.first)

reload_done-IsCapped : (c : CustomTable) → IsCapped c.state → IsCapped (reload_done c).state
unfolding reload_done
reload_done-IsCapped c v = ground (arith, v.capped, v.first)

page_loaded-IsCapped :
    (c : CustomTable) (n most : ℕ) (t : Text)
    → n ≤ most
    → IsCapped c.state
    → IsCapped (page_loaded c n most t).state
unfolding page_loaded push_token
page_loaded-IsCapped c n most t h v =
    ground (arith, v.capped, v.first, get_elem?-append c.state.token_list (t ∷ []) [] v.first)

reset_to_first_page-IsCapped :
    (c : CustomTable) (t : Text) → IsCapped c.state → IsCapped (reset_to_first_page c t).state
unfolding reset_to_first_page
reset_to_first_page-IsCapped c t v = ground (arith, v.capped, v.first)

finish-IsCapped :
    (c : CustomTable) (p : Pending) (r : Reply)
    → IsBounded p
    → IsCapped c.state
    → IsCapped (finish c p r).state
unfolding finish
finish-IsCapped c p rejected b v = reload_done-IsCapped c v
finish-IsCapped c (to_page n most) (token t) b v =
    page_loaded-IsCapped (reload_done c) n most t b (reload_done-IsCapped c v)
finish-IsCapped c to_first_page (token t) b v =
    reset_to_first_page-IsCapped (reload_done c) t (reload_done-IsCapped c v)
finish-IsCapped c ignored (token t) b v = reload_done-IsCapped c v

-- A handler that has started: its component, and what it will go on with.
abbrev IsStarted : Option Started → Type 0
IsStarted none = Unit
IsStarted (some s) = IsCapped s.table.state × IsBounded s.pending

load-IsStarted :
    (c : CustomTable) (l : LoadRequest) (p : Pending)
    → IsBounded p
    → IsCapped c.state
    → IsStarted (some (load c l p))
unfolding load
load-IsStarted c l p b v = (reload-IsCapped c l v, b)

if-IsStarted :
    (b : Bool) (o o' : Option Started)
    → IsStarted o
    → IsStarted o'
    → IsStarted (if b then o else o')
if-IsStarted true o o' h h' = h
if-IsStarted false o o' h h' = h'

sorted-IsCapped :
    (c : CustomTable) (k : Text)
    → IsCapped c.state
    → IsCapped (set_state_safe c (sorted_by c.state k)).state
sorted-IsCapped c k v = ground (arith, v.capped, v.first)

start-IsStarted : (c : CustomTable) (e : Event) → IsCapped c.state → IsStarted (start c e)
unfolding start page_changed_start request_sort_start
start-IsStarted c (page_changed o) v =
    load-IsStarted c (page_load (get_elem? c.state.token_list (new_current_page c.state o)))
      (to_page (new_current_page c.state o) c.state.max_page_index) (new_current_page-le c.state o)
      v
start-IsStarted c (request_sort none) v = tt
start-IsStarted c (request_sort (some k)) v = if-IsStarted (is_empty k) none _ tt (
    if-IsStarted c.is_mounted _ none
      (load-IsStarted (set_state_safe c (sorted_by c.state k)) (sort_load (next_order c.state k) k)
        to_first_page tt (sorted-IsCapped c k v))
      tt)
start-IsStarted c (request_filter f) v = load-IsStarted c (filter_load f) to_first_page tt v
start-IsStarted c (request_rows_per_page n) v = load-IsStarted c (rows_load n) to_first_page tt v
start-IsStarted c refresh v = load-IsStarted c no_override ignored tt v

-- The invariant of the table with its requests in flight.
pub record IsSafe (w : World) : Type 0 where
  pub pages : IsCapped w.table.state
  pub bounded : All IsBounded w.in_flight
  pub busy : w.table.is_mounted ≡ true → w.table.state.is_busy ≡ true → 0 < length w.in_flight

launched-IsSafe :
    (w : World) (s : Started)
    → All IsBounded w.in_flight
    → IsStarted (some s)
    → IsSafe (launched w s)
launched-IsSafe w s b (pages, bounded) = record {
  pages = pages;
  bounded = All-append IsBounded w.in_flight _ b (bounded, tt);
  busy = λ _ _. rw (length-append w.in_flight (s.pending ∷ [])) (omega arith);
}

pub finish-is_busy :
    (c : CustomTable) (p : Pending) (r : Reply)
    → (finish c p r).is_mounted ≡ true
    → (finish c p r).state.is_busy ≡ false
unfolding finish page_loaded reset_to_first_page reload_done push_token
finish-is_busy c p rejected = ground arith
finish-is_busy c (to_page n most) (token t) = ground arith
finish-is_busy c to_first_page (token t) = ground arith
finish-is_busy c ignored (token t) = ground arith

typed-IsSafe :
    (w : World) (value : Text)
    → IsSafe w
    → IsSafe (record w { table = handle_filter_change w.table value })
unfolding handle_filter_change
typed-IsSafe w value safe =
    ground (arith, safe.pages.capped, safe.pages.first, safe.bounded, safe.busy)

left-IsSafe : (w : World) → IsSafe w → IsSafe (record w { table = component_will_unmount w.table })
unfolding component_will_unmount
left-IsSafe w safe = record { pages = safe.pages; bounded = safe.bounded; busy = λ e _. cc }

fired-IsCapped :
    (c d : CustomTable) (e : Event)
    → debounce_fires c ≡ some (d, e)
    → IsCapped c.state
    → IsCapped d.state
unfolding debounce_fires
fired-IsCapped c d e h v = grind arith

received-IsSafe :
    (w : World) (before after : List Pending) (p : Pending) (r : Reply)
    → w.in_flight ≡ before ++ p ∷ after
    → IsSafe w
    → IsSafe (received w p r (before ++ after))
received-IsSafe w before after p r e safe =
    let (b, rest) = All-without IsBounded before p after (subst (All IsBounded) e safe.bounded) in
    record {
      pages = finish-IsCapped w.table p r b safe.pages;
      bounded = rest;
      busy = λ m busy. let idle = finish-is_busy w.table p r m in cc;
    }

Step-IsSafe : {w v : World} → Step w v → IsSafe w → IsSafe v
Step-IsSafe (handled w e s eq) safe =
    launched-IsSafe w s safe.bounded (subst IsStarted eq (start-IsStarted w.table e safe.pages))
Step-IsSafe (answered w before after p r e) safe = received-IsSafe w before after p r e safe
Step-IsSafe (typed w value) safe = typed-IsSafe w value safe
Step-IsSafe (fired w c e s f eq) safe =
    launched-IsSafe w s safe.bounded
      (subst IsStarted eq (start-IsStarted c e (fired-IsCapped w.table c e f safe.pages)))
Step-IsSafe (left w) safe = left-IsSafe w safe

pub Reach-IsSafe : {w v : World} → IsSafe w → Reach w v → IsSafe v
Reach-IsSafe safe here = safe
Reach-IsSafe safe (next reach step) = Step-IsSafe step (Reach-IsSafe safe reach)

pub opened-IsSafe :
    (columns : List Column) (sort_column : Option Text) (order : Option SortOrder)
    → IsSafe (opened columns sort_column order)
unfolding construct
opened-IsSafe columns sort_column order = record {
  pages = record { capped = omega arith; first = refl };
  bounded = tt;
  busy = λ _ e. cc;
}

-- Whatever events come to a new table, in whatever order the replies arrive and whatever they are, it
-- never shows a page past the last one it knows of, never loses the first page's token, and while it
-- is mounted it is busy only when a request is in flight.
pub run-IsSafe :
    (columns : List Column) (sort_column : Option Text) (order : Option SortOrder) (w : World)
    → Reach (opened columns sort_column order) w
    → IsSafe w
run-IsSafe columns sort_column order w reach =
    Reach-IsSafe (opened-IsSafe columns sort_column order) reach
