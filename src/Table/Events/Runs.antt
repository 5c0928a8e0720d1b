-- ===== src/Table/Events/Runs.antt =====
-- Whole runs of the table: handlers one after the other, each with its reply.
use metadata.Prelude.{
  ℕ, ◌≡◌, refl, ◌∙◌, Bool, true, false, List, [], ◌∷◌, Option, none, some, if◌then◌else◌, arith,
  get_elem?,
}
use metadata.Prelude.Texts.{Text}
use metadata.Value.{is_empty}
use metadata.Rows.{Column}
use metadata.Table.State.{
  no_override, LoadRequest, SortOrder, CustomTable, reload, reload_done, set_state_safe, construct,
}
use metadata.Table.Events.{
  Event, Reply, Pending, page_changed, request_sort, request_filter, request_rows_per_page, refresh,
  stay, token, rejected, to_page, to_first_page, ignored, start, Started, new_current_page,
  page_load, filter_load, rows_load, next_order, sort_load, load, page_changed_start,
  request_sort_start, finish, page_loaded, push_token, reset_to_first_page, perform,
}
use metadata.Table.Events.Paging.{
  IsValid, sorted_by, perform-IsValid, construct-IsValid, reload-mounted, set_state_safe-mounted,
}

unfoldable pub perform_all : CustomTable → List (Event × Reply) → CustomTable
unfolding perform
perform_all c [] = c
perform_all c ((e, r) ∷ rest) = perform_all (perform c e r) rest

pub page_loaded-mounted :
    (c : CustomTable) (n most : ℕ) (t : Text) → (page_loaded c n most t).is_mounted ≡ c.is_mounted
unfolding page_loaded push_token
page_loaded-mounted c n most t = ground arith

pub finish-mounted :
    (c : CustomTable) (p : Pending) (r : Reply) → (finish c p r).is_mounted ≡ c.is_mounted
unfolding finish reset_to_first_page reload_done
finish-mounted c p rejected = set_state_safe-mounted c _
finish-mounted c (to_page n most) (token t) =
    page_loaded-mounted (reload_done c) n most t ∙ set_state_safe-mounted c _
finish-mounted c to_first_page (token t) =
    set_state_safe-mounted (reload_done c) _ ∙ set_state_safe-mounted c _
finish-mounted c ignored (token t) = set_state_safe-mounted c _

pub load-mounted :
    (c : CustomTable) (l : LoadRequest) (p : Pending) (r : Reply)
    → (finish (load c l p).table p r).is_mounted ≡ c.is_mounted
unfolding load
load-mounted c l p r = finish-mounted (reload c l).0 p r ∙ reload-mounted c l

-- The component after what a handler started, if it started anything.
abbrev finished : CustomTable → Reply → Option Started → CustomTable
finished c r o = elim o [ none ↦ c | some s ↦ finish s.table s.pending r ]

finish_when-mounted :
    (c : CustomTable) (b : Bool) (s : Started) (r : Reply)
    → (finish s.table s.pending r).is_mounted ≡ c.is_mounted
    → (finished c r (if b then some s else none)).is_mounted ≡ c.is_mounted
finish_when-mounted c true s r h = h
finish_when-mounted c false s r h = refl

finish_unless-mounted :
    (c : CustomTable) (b : Bool) (o : Option Started) (r : Reply)
    → (finished c r o).is_mounted ≡ c.is_mounted
    → (finished c r (if b then none else o)).is_mounted ≡ c.is_mounted
finish_unless-mounted c true o r h = refl
finish_unless-mounted c false o r h = h

pub perform-mounted :
    (c : CustomTable) (e : Event) (r : Reply) → (perform c e r).is_mounted ≡ c.is_mounted
unfolding perform start load page_changed_start request_sort_start
perform-mounted c (page_changed o) r =
    let n = new_current_page c.state o in
    load-mounted c (page_load (get_elem? c.state.token_list n)) (to_page n c.state.max_page_index) r
perform-mounted c (request_sort none) r = refl
perform-mounted c (request_sort (some k)) r =
    let sorted = set_state_safe c (sorted_by c.state k) in
    finish_unless-mounted c (is_empty k)
      (if c.is_mounted
        then some (load sorted (sort_load (next_order c.state k) k) to_first_page)
        else none)
      r
      (finish_when-mounted c c.is_mounted
        (load sorted (sort_load (next_order c.state k) k) to_first_page) r
        (load-mounted sorted (sort_load (next_order c.state k) k) to_first_page r
          ∙ set_state_safe-mounted c (sorted_by c.state k)))
perform-mounted c (request_filter f) r = load-mounted c (filter_load f) to_first_page r
perform-mounted c (request_rows_per_page n) r = load-mounted c (rows_load n) to_first_page r
perform-mounted c refresh r = load-mounted c no_override ignored r

perform_all-IsValid :
    (c : CustomTable) (es : List (Event × Reply))
    → c.is_mounted ≡ true
    → IsValid c.state
    → IsValid (perform_all c es).state
unfolding perform_all
perform_all-IsValid c [] m v = v
perform_all-IsValid c ((e, r) ∷ rest) m v =
    perform_all-IsValid (perform c e r) rest (perform-mounted c e r ∙ m) (perform-IsValid c e r m v)

pub construct-mounted :
    (columns : List Column) (sort_column : Option Text) (order : Option SortOrder)
    → (construct columns sort_column order).is_mounted ≡ true
unfolding construct
construct-mounted columns sort_column order = refl

-- However a table is used once its first load has succeeded, with handlers that do not overtake each
-- other and any replies, its page counter, page bound and token list stay consistent.
pub perform_all-construct :
    (columns : List Column) (sort_column : Option Text) (order : Option SortOrder) (t : Text)
    (es : List (Event × Reply))
    → IsValid
        (perform_all
          (perform (construct columns sort_column order) (page_changed stay) (token t))
          es).state
perform_all-construct columns sort_column order t es =
    let opened = perform (construct columns sort_column order) (page_changed stay) (token t) in
    perform_all-IsValid opened es
      (perform-mounted (construct columns sort_column order) (page_changed stay) (token t)
        ∙ construct-mounted columns sort_column order)
      (construct-IsValid columns sort_column order t)
