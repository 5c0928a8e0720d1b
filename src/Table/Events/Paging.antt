-- ===== src/Table/Events/Paging.antt =====
-- The page counter and the list of page tokens, when no handler overtakes another.
use metadata.Prelude.{
  ℕ, ◌+◌, ◌≤◌, ◌<◌, ◌≡◌, ◌⊎◌, sym, ◌∙◌, Bool, true, false, List, [], ◌∷◌, Option, none, some,
  if◌then◌else◌, get_elem?, length, arith, length-append, get_elem?-of_lt,
}
use metadata.Prelude.Texts.{Text}
use metadata.Value.{is_empty}
use metadata.Rows.{Column}
use metadata.Table.State.{
  SortOrder, CustomTableState, CustomTable, LoadRequest, no_override, set_state_safe, reload,
  reload_done, construct,
}
use metadata.Table.Events.{
  Offset, back, stay, forward, Event, page_changed, request_sort, request_filter,
  request_rows_per_page, refresh, to_page, to_first_page, ignored, Reply, token, rejected, Started,
  load, new_current_page, page_changed_start, next_order, request_sort_start, page_loaded,
  reset_to_first_page, finish, perform, page_load, sort_load, filter_load, rows_load,
}

-- The page shown has a token, and so has the page after it unless it is known to be the last.
pub record IsValid (s : CustomTableState) : Type 0 where
  pub within : s.current_page < length s.token_list
  pub capped : s.current_page ≤ s.max_page_index
  pub ahead : (s.max_page_index < length s.token_list) ⊎ (s.current_page + 1 < length s.token_list)

-- What paging reads of the state.
pub record SamePages (s t : CustomTableState) : Type 0 where
  pub page : t.current_page ≡ s.current_page
  pub most : t.max_page_index ≡ s.max_page_index
  pub tokens : t.token_list ≡ s.token_list

SamePages-IsValid : {s t : CustomTableState} → SamePages s t → IsValid s → IsValid t
SamePages-IsValid e v = record {
  within = rw (e.page, e.tokens) v.within;
  capped = rw (e.page, e.most) v.capped;
  ahead = rw (e.page, e.most, e.tokens) v.ahead;
}

reload-SamePages : (c : CustomTable) (l : LoadRequest) → SamePages c.state (reload c l).0.state
unfolding reload
reload-SamePages c l = ground arith

reload_done-SamePages : (c : CustomTable) → SamePages c.state (reload_done c).state
unfolding reload_done
reload_done-SamePages c = ground arith

moved-le : (s : CustomTableState) (o : Offset) → new_current_page s o ≤ s.current_page + 1
unfolding new_current_page
moved-le s back = omega arith
moved-le s stay = omega arith
moved-le s forward = omega arith

-- Every page that the buttons lead to has a token.
new_current_page-lt :
    (s : CustomTableState) (o : Offset) → IsValid s → new_current_page s o < length s.token_list
unfolding new_current_page
new_current_page-lt s back v = omega arith
new_current_page-lt s stay v = omega arith
new_current_page-lt s forward v = omega arith

pub new_current_page-le :
    (s : CustomTableState) (o : Offset) → new_current_page s o ≤ s.max_page_index
unfolding new_current_page
new_current_page-le s o = omega arith

pub new_current_page-forward :
    (s : CustomTableState)
    → s.current_page < s.max_page_index
    → new_current_page s forward ≡ s.current_page + 1
unfolding new_current_page
new_current_page-forward s h = omega arith

-- The rest of `_pageChanged`, from any state whose list holds the page's token.
page_loaded-IsValid :
    (c : CustomTable) (n most : ℕ) (t : Text)
    → IsValid c.state
    → n < length c.state.token_list
    → n ≤ most
    → most ≡ c.state.max_page_index
    → IsValid (page_loaded c n most t).state
unfolding page_loaded
page_loaded-IsValid c n most t v h le e = ground (arith, length-append c.state.token_list (t ∷ []))

reset_to_first_page-IsValid :
    (c : CustomTable) (t : Text) → c.is_mounted ≡ true → IsValid (reset_to_first_page c t).state
unfolding reset_to_first_page
reset_to_first_page-IsValid c t h = rw h (ground arith)

reload_done-mounted : (c : CustomTable) → (reload_done c).is_mounted ≡ c.is_mounted
unfolding reload_done
reload_done-mounted c = ground arith

pub reload-mounted : (c : CustomTable) (l : LoadRequest) → (reload c l).0.is_mounted ≡ c.is_mounted
unfolding reload
reload-mounted c l = ground arith

finish-IsValid-reset :
    (c : CustomTable) (r : Reply)
    → c.is_mounted ≡ true
    → IsValid c.state
    → IsValid (finish c to_first_page r).state
unfolding finish
finish-IsValid-reset c rejected m v = SamePages-IsValid (reload_done-SamePages c) v
finish-IsValid-reset c (token t) m v =
    reset_to_first_page-IsValid (reload_done c) t (reload_done-mounted c ∙ m)

finish-IsValid-ignored :
    (c : CustomTable) (r : Reply) → IsValid c.state → IsValid (finish c ignored r).state
unfolding finish
finish-IsValid-ignored c rejected v = SamePages-IsValid (reload_done-SamePages c) v
finish-IsValid-ignored c (token t) v = SamePages-IsValid (reload_done-SamePages c) v

finish-IsValid-page :
    (c : CustomTable) (n most : ℕ) (r : Reply)
    → IsValid c.state
    → n < length c.state.token_list
    → n ≤ most
    → most ≡ c.state.max_page_index
    → IsValid (finish c (to_page n most) r).state
unfolding finish
finish-IsValid-page c n most rejected v h le e = SamePages-IsValid (reload_done-SamePages c) v
finish-IsValid-page c n most (token t) v h le e =
    let same = reload_done-SamePages c in
    page_loaded-IsValid (reload_done c) n most t (SamePages-IsValid same v) (rw (same.tokens) h) le
      (e ∙ sym same.most)

perform-IsValid-page :
    (c : CustomTable) (o : Offset) (r : Reply)
    → IsValid c.state
    → IsValid (perform c (page_changed o) r).state
unfolding perform page_changed_start load
perform-IsValid-page c o r v =
    let n = new_current_page c.state o in
    let l = page_load (get_elem? c.state.token_list n) in
    let same = reload-SamePages c l in
    finish-IsValid-page (reload c l).0 n c.state.max_page_index r (SamePages-IsValid same v)
      (rw (same.tokens) (new_current_page-lt c.state o v)) (new_current_page-le c.state o)
      (sym same.most)

load-reset-IsValid :
    (c : CustomTable) (l : LoadRequest) (r : Reply)
    → c.is_mounted ≡ true
    → IsValid c.state
    → IsValid (finish (load c l to_first_page).table to_first_page r).state
unfolding load
load-reset-IsValid c l r m v =
    finish-IsValid-reset (reload c l).0 r (reload-mounted c l ∙ m)
      (SamePages-IsValid (reload-SamePages c l) v)

abbrev pub sorted_by : CustomTableState → Text → CustomTableState
sorted_by s k = record s { sort_order = next_order s k; sort_by = k }

pub set_state_safe-mounted :
    (c : CustomTable) (s : CustomTableState) → (set_state_safe c s).is_mounted ≡ c.is_mounted
set_state_safe-mounted c s = ground arith

sorted_by-SamePages :
    (c : CustomTable) (k : Text) → SamePages c.state (set_state_safe c (sorted_by c.state k)).state
sorted_by-SamePages c k = ground arith

-- On a mounted table every handler that runs to its end keeps the page within the tokens and below
-- the greatest page, and keeps a token for the next page unless that is past the last one. This
-- holds for any reply, a failed load included.
pub perform-IsValid :
    (c : CustomTable) (e : Event) (r : Reply)
    → c.is_mounted ≡ true
    → IsValid c.state
    → IsValid (perform c e r).state
unfolding perform request_sort_start
perform-IsValid c (page_changed o) r m v = perform-IsValid-page c o r v
perform-IsValid c (request_sort none) r m v = v
perform-IsValid c (request_sort (some k)) r m v = unless (is_empty k) _ (
    when c.is_mounted _ (
      load-reset-IsValid (set_state_safe c (sorted_by c.state k))
        (sort_load (next_order c.state k) k) r (set_state_safe-mounted c _ ∙ m)
        (SamePages-IsValid (sorted_by-SamePages c k) v)))
  where
    result : Option Started → CustomTable
    result o = elim o [ none ↦ c | some s ↦ finish s.table s.pending r ]

    when :
        (b : Bool) (s : Started)
        → IsValid (finish s.table s.pending r).state
        → IsValid (result (if b then some s else none)).state
    when true s h = h
    when false s h = v

    unless :
        (b : Bool) (o : Option Started)
        → IsValid (result o).state
        → IsValid (result (if b then none else o)).state
    unless true o h = v
    unless false o h = h
perform-IsValid c (request_filter f) r m v = load-reset-IsValid c (filter_load f) r m v
perform-IsValid c (request_rows_per_page n) r m v = load-reset-IsValid c (rows_load n) r m v
perform-IsValid c refresh r m v =
    finish-IsValid-ignored _ r (SamePages-IsValid (reload-SamePages c no_override) v)

-- The first load (`componentDidMount`), when it succeeds, makes the constructed table valid.
pub construct-IsValid :
    (columns : List Column) (sort_column : Option Text) (order : Option SortOrder) (t : Text)
    → IsValid (perform (construct columns sort_column order) (page_changed stay) (token t)).state
unfolding perform construct page_changed_start load reload reload_done page_loaded new_current_page
construct-IsValid columns sort_column order t = ground arith

-- The request of a page change on a valid table carries a token: the one stored for that page.
pub page_changed-token :
    (c : CustomTable) (o : Offset)
    → IsValid c.state
    → (t : Text) × (get_elem? c.state.token_list (new_current_page c.state o) ≡ some t)
      × ((page_changed_start c o).request.page_token ≡ some t)
unfolding page_changed_start load reload
page_changed-token c o v =
    let (t, e) = get_elem?-of_lt c.state.token_list _ (new_current_page-lt c.state o v) in (t, e, e)
