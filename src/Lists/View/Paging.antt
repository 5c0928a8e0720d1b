-- ===== src/Lists/View/Paging.antt =====
-- The table of a list page, whose `reload` answers every request with an empty page token.
use mathlib.Core.Path.{subst}
use metadata.Prelude.{
  ℕ, ◌≡◌, refl, Bool, true, false, [], ◌∷◌, Option, none, some, if◌then◌else◌, get_elem?, arith,
  ◌∙◌, ◌⊎◌, inl, inr, All, All-append, All-without, not,
}
use metadata.Prelude.Texts.{Text}
use metadata.Value.{is_empty}
use metadata.Table.State.{
  CustomTable, CustomTableState, no_override, LoadRequest, reload, reload_done, set_state_safe,
  construct, busy_with,
}
use metadata.Table.Events.{
  Event, page_changed, request_sort, request_filter, request_rows_per_page, refresh, stay, back,
  forward, Started, Pending, to_page, to_first_page, ignored, Reply, token, rejected, start, finish,
  load, page_changed_start, request_sort_start, new_current_page, page_load, sort_load, filter_load,
  next_order, page_loaded, reset_to_first_page,
}
use metadata.Table.Events.{handle_filter_change, debounce_fires, component_will_unmount}
use metadata.Table.Events.Paging.{sorted_by}
use metadata.Table.Schedule.{World, Step, opened, launched, handled, answered, typed, fired, left}
use metadata.Rows.{ListRequest}
use metadata.Resources.{TypeMap}
use metadata.Lists.Rows.{Builtins}
use metadata.Lists.Artifacts
use metadata.Lists.Artifacts.{ArtifactList}
use metadata.Lists.Executions.{ExecutionList}
use metadata.Lists.View.{TableProps, artifact_table, execution_table}

-- The first page of all.
pub record IsOnePage (s : CustomTableState) : Type 0 where
  pub page : s.current_page ≡ 0
  pub tokens : s.token_list ≡ [] ∷ []

-- The tables of the two list pages.
pub data ListTable : TableProps → Type 0 where
  artifacts : (p : ArtifactList) → ListTable (artifact_table p)
  executions : (p : ExecutionList) → ListTable (execution_table p)

-- The events that come to a table: those of its pager only where it has one.
abbrev pub may_come : TableProps → Event → Bool
may_come t (page_changed stay) = true
may_come t (page_changed _) = not t.disable_paging
may_come t (request_rows_per_page n) = not t.disable_paging
may_come t _ = true

-- What a handler goes on with, if that is the first page.
abbrev pub IsFirst : Pending → Type 0
IsFirst p = (p ≡ ignored) ⊎ (p ≡ to_first_page) ⊎ ((most : ℕ) × (p ≡ to_page 0 most))

-- A handler that has started goes on on the first page, and asks for it.
abbrev pub AsksFirst : Option Started → Type 0
AsksFirst none = Unit
AsksFirst (some s) = (s.request.page_token ≡ some []) × IsOnePage s.table.state × IsFirst s.pending

reload-IsOnePage :
    (c : CustomTable) (l : LoadRequest) → IsOnePage c.state → IsOnePage (reload c l).0.state
unfolding reload busy_with
reload-IsOnePage c l v = ground (arith, v.page, v.tokens)

first_token : (s : CustomTableState) → IsOnePage s → get_elem? s.token_list s.current_page ≡ some []
first_token s v = rw (v.page, v.tokens) refl

stay-zero : (s : CustomTableState) → IsOnePage s → new_current_page s stay ≡ 0
unfolding new_current_page
stay-zero s v = let e = v.page in omega arith

sorted_by-IsOnePage :
    (c : CustomTable) (k : Text)
    → IsOnePage c.state
    → IsOnePage (set_state_safe c (sorted_by c.state k)).state
sorted_by-IsOnePage c k v = ground (arith, v.page, v.tokens)

if-AsksFirst :
    (b : Bool) (o o' : Option Started)
    → AsksFirst o
    → AsksFirst o'
    → AsksFirst (if b then o else o')
if-AsksFirst true o o' h h' = h
if-AsksFirst false o o' h h' = h'

stay-AsksFirst :
    (c : CustomTable) → IsOnePage c.state → AsksFirst (some (page_changed_start c stay))
unfolding page_changed_start load reload
stay-AsksFirst c v =
    let l = page_load (get_elem? c.state.token_list (new_current_page c.state stay)) in
    (
      (λ k. get_elem? c.state.token_list (stay-zero c.state v k)) ∙ (λ k. get_elem? (v.tokens k) 0),
      reload-IsOnePage c l v,
      inr (
          inr
            (c.state.max_page_index, λ k. to_page (stay-zero c.state v k) c.state.max_page_index)),
    )

start-AsksFirst :
    (t : TableProps) (c : CustomTable) (e : Event)
    → t.disable_paging ≡ true
    → may_come t e ≡ true
    → IsOnePage c.state
    → AsksFirst (start c e)
unfolding start request_sort_start load reload
start-AsksFirst t c (page_changed back) d h v = absurd (cc)
start-AsksFirst t c (page_changed stay) d h v = stay-AsksFirst c v
start-AsksFirst t c (page_changed forward) d h v = absurd (cc)
start-AsksFirst t c (request_sort none) d h v = tt
start-AsksFirst t c (request_sort (some k)) d h v = if-AsksFirst (is_empty k) none _ tt (
    if-AsksFirst c.is_mounted _ none
      (
        refl,
        reload-IsOnePage (set_state_safe c (sorted_by c.state k))
            (sort_load (next_order c.state k) k) (sorted_by-IsOnePage c k v),
        inr (inl refl),
      )
      tt)
start-AsksFirst t c (request_filter f) d h v =
    (first_token c.state v, reload-IsOnePage c (filter_load f) v, inr (inl refl))
start-AsksFirst t c (request_rows_per_page n) d h v = absurd (cc)
start-AsksFirst t c refresh d h v =
    (first_token c.state v, reload-IsOnePage c no_override v, inl refl)

-- What a list page's `reload` comes to.
abbrev is_list_reply : Reply → Bool
is_list_reply (token t) = is_empty t
is_list_reply rejected = true

finish-IsOnePage :
    (c : CustomTable) (p : Pending) (r : Reply)
    → is_list_reply r ≡ true
    → IsOnePage c.state
    → IsFirst p
    → IsOnePage (finish c p r).state
unfolding finish reload_done reset_to_first_page page_loaded
finish-IsOnePage c p rejected h v q = ground (arith, v.page, v.tokens)
finish-IsOnePage c p (token t) h v (inl e) = rw e (ground (arith, v.page, v.tokens))
finish-IsOnePage c p (token t) h v (inr (inl e)) = rw e (ground (arith, v.page, v.tokens))
finish-IsOnePage c p (token t) h v (inr (inr (most, e))) =
    rw (e, h) (ground (arith, v.page, v.tokens))

-- A list page's `reload` gives the empty token where its promise is fulfilled.
abbrev pub reply_of : (fulfilled : Bool) → Reply
reply_of fulfilled = if fulfilled then token [] else rejected

reply_of-is_list_reply : (fulfilled : Bool) → is_list_reply (reply_of fulfilled) ≡ true
reply_of-is_list_reply true = refl
reply_of-is_list_reply false = refl

typed-IsOnePage :
    (c : CustomTable) (value : Text)
    → IsOnePage c.state
    → IsOnePage (handle_filter_change c value).state
unfolding handle_filter_change
typed-IsOnePage c value v = ground (arith, v.page, v.tokens)

fired-IsOnePage :
    (t : TableProps) (c d : CustomTable) (e : Event)
    → debounce_fires c ≡ some (d, e)
    → IsOnePage c.state
    → IsOnePage d.state × (may_come t e ≡ true)
unfolding debounce_fires
fired-IsOnePage t c d e h v = through c.debounced h
  where
    through :
        (o : Option Text)
        → ◌≡◌ {A = Option (CustomTable × Event)}
            (elim o [
              | none ↦ none
              | some value ↦ some (record c { debounced = none }, request_filter (some value))
            ])
            (some (d, e))
        → IsOnePage d.state × (may_come t e ≡ true)
    through none k = cc
    through (some value) k =
        let table : record c { debounced = none } ≡ d = cc in
        let event : request_filter (some value) ≡ e = cc in
        (subst (λ x. IsOnePage x.state) table v, subst (λ x. may_come t x ≡ true) event refl)

-- The table with its requests in flight, all of them for the first page.
record IsOnePageWorld (w : World) : Type 0 where
  one : IsOnePage w.table.state
  asked : All IsFirst w.in_flight

launched-IsOnePageWorld :
    (w : World) (s : Started)
    → All IsFirst w.in_flight
    → AsksFirst (some s)
    → IsOnePageWorld (launched w s)
launched-IsOnePageWorld w s asked (_, one, p) = record {
  one = one;
  asked = All-append IsFirst w.in_flight _ asked (p, tt);
}

module _ (b : Builtins) (type_name : TypeMap → ℕ → Text) where
  -- The promises that the pages' `reload` gives for a request.
  pub data ListReply : Reply → Type 0 where
    of_artifacts :
        (p : ArtifactList) (request : ListRequest) (r : Artifacts.Replies)
        → ListReply (reply_of (Artifacts.reload b type_name p request r).1)
    of_executions : ListReply (reply_of true)

  ListReply-is_list_reply : {r : Reply} → ListReply r → is_list_reply r ≡ true
  ListReply-is_list_reply (of_artifacts p request r) =
      reply_of-is_list_reply (Artifacts.reload b type_name p request r).1
  ListReply-is_list_reply of_executions = refl

  -- A step of the table of a list page.
  abbrev pub IsListStep : TableProps → {w v : World} → Step w v → Type 0
  IsListStep t (handled w e s eq) = may_come t e ≡ true
  IsListStep t (answered w before after p r eq) = ListReply r
  IsListStep t (typed w value) = Unit
  IsListStep t (fired w c e s f eq) = Unit
  IsListStep t (left w) = Unit

  pub data ListReach (t : TableProps) (w : World) : World → Type 0 where
    here : ListReach t w w
    next : {u v : World} → ListReach t w u → (step : Step u v) → IsListStep t step → ListReach t w v

  Step-IsOnePageWorld :
      (t : TableProps) {w v : World} (step : Step w v)
      → t.disable_paging ≡ true
      → IsListStep t step
      → IsOnePageWorld w
      → IsOnePageWorld v
  unfolding component_will_unmount
  Step-IsOnePageWorld t (handled w e s eq) d h v =
      launched-IsOnePageWorld w s v.asked
        (subst AsksFirst eq (start-AsksFirst t w.table e d h v.one))
  Step-IsOnePageWorld t (answered w before after p r eq) d h v =
      let (q, rest) = All-without IsFirst before p after (subst (All IsFirst) eq v.asked) in
      record {
        one = finish-IsOnePage w.table p r (ListReply-is_list_reply h) v.one q;
        asked = rest;
      }
  Step-IsOnePageWorld t (typed w value) d h v = record {
    one = typed-IsOnePage w.table value v.one;
    asked = v.asked;
  }
  Step-IsOnePageWorld t (fired w c e s f eq) d h v =
      let (one, may) = fired-IsOnePage t w.table c e f v.one in
      launched-IsOnePageWorld w s v.asked (subst AsksFirst eq (start-AsksFirst t c e d may one))
  Step-IsOnePageWorld t (left w) d h v = record {
    one = record { page = v.one.page; tokens = v.one.tokens };
    asked = v.asked;
  }

  ListReach-IsOnePageWorld :
      (t : TableProps) {w v : World}
      → t.disable_paging ≡ true
      → ListReach t w v
      → IsOnePageWorld w
      → IsOnePageWorld v
  ListReach-IsOnePageWorld t d here v = v
  ListReach-IsOnePageWorld t d (next reach step h) v =
      Step-IsOnePageWorld t step d h (ListReach-IsOnePageWorld t d reach v)

  ListTable-disable_paging : {t : TableProps} → ListTable t → t.disable_paging ≡ true
  unfolding artifact_table execution_table
  ListTable-disable_paging (artifacts p) = refl
  ListTable-disable_paging (executions p) = refl

  -- Whatever comes to the table of a list page, in whatever order its requests are answered by the
  -- page's `reload`, overtaken by others or not: the table stays on the first page, with the first
  -- page's token alone, and any further event that can come, which are all but those of the pager that
  -- the table does not have, asks for the first page, if it asks for one.
  pub run-first_page :
      (t : TableProps) (w : World) (e : Event)
      → ListTable t
      → ListReach t (opened t.columns (some t.initial_sort_column) (some t.initial_sort_order)) w
      → may_come t e ≡ true
      → IsOnePage w.table.state × AsksFirst (start w.table e)
  unfolding construct
  run-first_page t w e table reach h =
      let d = ListTable-disable_paging table in
      let v =
        ListReach-IsOnePageWorld t d reach
          (record { one = record { page = refl; tokens = refl }; asked = tt }) in
      (v.one, start-AsksFirst t w.table e d h v.one)
