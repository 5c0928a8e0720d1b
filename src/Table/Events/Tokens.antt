-- ===== src/Table/Events/Tokens.antt =====
-- The token list against a server: a function from requests to the next page's token.
use mathlib.Core.Path.{subst}
use metadata.Prelude.{
  ℕ, ◌+◌, ◌≡◌, ◌⊎◌, inl, inr, refl, sym, ap, ◌∙◌, Bool, true, false, List, [], ◌∷◌, ◌++◌, Option,
  none, some, if◌then◌else◌, get_elem?, length, arith, Bool-cases, or_else,
}
use metadata.Prelude.Texts.{Text}
use metadata.Value.{is_empty}
use metadata.Rows.{ListRequest, Column}
use metadata.Table.State.{
  SortOrder, CustomTable, LoadRequest, no_override, set_state_safe, reload, reload_done, construct,
}
use metadata.Table.Events.{
  Offset, stay, Event, page_changed, request_sort, request_filter, request_rows_per_page, refresh,
  to_first_page, ignored, token, Started, load, new_current_page, page_changed_start, next_order,
  request_sort_start, start, page_loaded, reset_to_first_page, finish, page_load, sort_load,
  filter_load, rows_load,
}
use metadata.Table.Events.Paging.{
  IsValid, sorted_by, set_state_safe-mounted, reload-mounted, page_changed-token,
}
use metadata.Table.Events.Chains.{AreChained, AreChained-concat, AreChained-ext}

-- The request that the table sends, in its present state, for the page of token `t`.
unfoldable pub page_request : CustomTable → Text → ListRequest
page_request c t = (load c (page_load (some t)) ignored).request

-- What paging and refreshing override: the token or nothing.
abbrev turn : Option (Option Text) → LoadRequest
turn p = record no_override { page_token = p }

module _ (server : ListRequest → Text) where
  -- A handler that runs to its end, answered by the server.
  unfoldable pub served : CustomTable → Event → CustomTable
  served c e = elim (start c e) [
    | none ↦ c
    | some s ↦ finish s.table s.pending (token (server s.request))
  ]

  -- The list starts with the first page's token, which is empty, and follows the server.
  pub record IsPaged (c : CustomTable) : Type 0 where
    pub first : get_elem? c.state.token_list 0 ≡ some []
    pub chained : AreChained (λ t. server (page_request c t)) c.state.token_list

  IsPaged-by :
      (c : CustomTable) (ts : List Text)
      → c.state.token_list ≡ ts
      → get_elem? ts 0 ≡ some []
      → AreChained (λ t. server (page_request c t)) ts
      → IsPaged c
  IsPaged-by c ts e first chained = record {
    first = subst (λ us. get_elem? us 0 ≡ some []) (sym e) first;
    chained = subst (AreChained (λ t. server (page_request c t))) (sym e) chained;
  }

  -- A page change sends the state's query, and leaves the query alone.
  pub page_changed-request :
      (c : CustomTable) (o : Offset) (t : Text)
      → get_elem? c.state.token_list (new_current_page c.state o) ≡ some t
      → (page_changed_start c o).request ≡ page_request c t
  unfolding page_changed_start page_request load
  page_changed-request c o t e = rw e

  pub query_kept :
      (c : CustomTable) (l : Option (Option Text)) (t : Text)
      → page_request (reload_done (reload c (turn l)).0) t ≡ page_request c t
  unfolding page_request load reload_done reload
  query_kept c l t = ground arith

  pub page_loaded-query :
      (c : CustomTable) (n most : ℕ) (u t : Text)
      → page_request (page_loaded c n most u) t ≡ page_request c t
  unfolding page_request load reload page_loaded
  page_loaded-query c n most u t = ground arith

  page_loaded-tokens :
      (c : CustomTable) (n most : ℕ) (u : Text)
      → ((page_loaded c n most u).state.token_list ≡ c.state.token_list)
        ⊎ ((n + 1 ≡ length c.state.token_list)
            × ((page_loaded c n most u).state.token_list ≡ c.state.token_list ++ u ∷ []))
  unfolding page_loaded
  page_loaded-tokens c n most u = ground arith

  get_elem?-first_append :
      (ts us : List Text) {t : Text} → get_elem? ts 0 ≡ some t → get_elem? (ts ++ us) 0 ≡ some t
  get_elem?-first_append [] us h = cc
  get_elem?-first_append (u ∷ ts) us h = h

  page_loaded-IsPaged :
      (c : CustomTable) (n most : ℕ) (t : Text)
      → IsPaged c
      → get_elem? c.state.token_list n ≡ some t
      → IsPaged (page_loaded c n most (server (page_request c t)))
  page_loaded-IsPaged c n most t p e =
      let u = server (page_request c t) in
      elim (page_loaded-tokens c n most u) [
        | inl same ↦
            IsPaged-by _ c.state.token_list same p.first
              (moved_query u c.state.token_list p.chained)
        | inr (last, longer) ↦
            IsPaged-by _ (c.state.token_list ++ u ∷ []) longer
              (get_elem?-first_append c.state.token_list (u ∷ []) p.first)
              (moved_query u (c.state.token_list ++ u ∷ []) (
                AreChained-concat (λ x. server (page_request c x)) c.state.token_list n t p.chained
                  e last))
      ]
    where
      moved_query :
          (u : Text) (ts : List Text)
          → AreChained (λ x. server (page_request c x)) ts
          → AreChained (λ x. server (page_request (page_loaded c n most u) x)) ts
      moved_query u ts =
          AreChained-ext (λ x. server (page_request c x))
            (λ x. server (page_request (page_loaded c n most u) x)) ts
            (λ x. ap server (sym (page_loaded-query c n most u x)))

  reset-IsPaged :
      (c : CustomTable) (request : ListRequest)
      → c.is_mounted ≡ true
      → request ≡ page_request c []
      → IsPaged (reset_to_first_page (reload_done c) (server request))
  unfolding reset_to_first_page reload_done page_request load reload
  reset-IsPaged c request m e = elim (Bool-cases (is_empty (server request))) [
    | inl none_left ↦ rw (m, none_left) (record { first = refl; chained = tt })
    | inr more ↦ rw (m, more) (record { first = refl; chained = (ap server e, tt) })
  ]

  pub reloaded_tokens :
      (d : CustomTable) (k : LoadRequest)
      → (reload_done (reload d k).0).state.token_list ≡ d.state.token_list
  unfolding reload reload_done
  reloaded_tokens d k = ground arith

  -- A reload keeps the list, and a page load the query.
  reloaded-IsPaged :
      (c : CustomTable) (l : Option (Option Text))
      → IsPaged c
      → IsPaged (reload_done (reload c (turn l)).0)
  reloaded-IsPaged c l p = IsPaged-by _ c.state.token_list (reloaded_tokens c (turn l)) p.first (
      AreChained-ext (λ x. server (page_request c x))
        (λ x. server (page_request (reload_done (reload c (turn l)).0) x)) c.state.token_list
        (λ x. ap server (sym (query_kept c l x))) p.chained)

  served_page-IsPaged :
      (c : CustomTable) (o : Offset) (t : Text)
      → get_elem? c.state.token_list (new_current_page c.state o) ≡ some t
      → IsPaged c
      → IsPaged (served c (page_changed o))
  unfolding served page_changed_start load start finish page_loaded
  served_page-IsPaged c o t at_n p =
      let l = some (get_elem? c.state.token_list (new_current_page c.state o)) in
      let d = reload_done (reload c (turn l)).0 in
      let same : (reload c (turn l)).1 ≡ page_request d t =
        page_changed-request c o t at_n ∙ sym (query_kept c l t) in
      rw same (
        page_loaded-IsPaged d (new_current_page c.state o) c.state.max_page_index t
          (reloaded-IsPaged c l p) (rw (reloaded_tokens c (turn l)) at_n))

  load-reset-IsPaged :
      (c : CustomTable) (l : LoadRequest)
      → c.is_mounted ≡ true
      → (load c l to_first_page).request ≡ page_request (reload c l).0 []
      → IsPaged (
          finish
            (load c l to_first_page).table
            to_first_page
            (token (server (load c l to_first_page).request)))
  unfolding load finish
  load-reset-IsPaged c l m e = reset-IsPaged (reload c l).0 _ (reload-mounted c l ∙ m) e

  -- The first page's token is asked for, in the new query.
  asks_first_page :
      (c : CustomTable) (l : LoadRequest)
      → c.is_mounted ≡ true
      → or_else l.page_token (get_elem? c.state.token_list c.state.current_page) ≡ some []
      → (load c l to_first_page).request ≡ page_request (reload c l).0 []
  unfolding load reload page_request
  asks_first_page c l m e = ground arith

  -- Only the filter's request does not ask for the first page by itself.
  abbrev pub FromFirstPage : CustomTable → Event → Type 0
  FromFirstPage c (request_filter f) = c.state.current_page ≡ 0
  FromFirstPage c _ = Unit

  -- On a mounted table with a valid page, a handler that is answered by the server leaves a token
  -- list that starts with the first page and in which each token is the server's answer, in the
  -- query that the table then has, to the page before. The filter is covered only on page 0.
  pub served-IsPaged :
      (c : CustomTable) (e : Event)
      → c.is_mounted ≡ true
      → FromFirstPage c e
      → IsValid c.state
      → IsPaged c
      → IsPaged (served c e)
  unfolding served start request_sort_start finish reload_done
  served-IsPaged c (page_changed o) m f v p =
      let (t, at_n, _) = page_changed-token c o v in served_page-IsPaged c o t at_n p
  served-IsPaged c (request_sort none) m f v p = p
  served-IsPaged c (request_sort (some k)) m f v p =
      let c' = set_state_safe c (sorted_by c.state k) in
      let m' : c'.is_mounted ≡ true = set_state_safe-mounted c _ ∙ m in
      let l = sort_load (next_order c.state k) k in
      unless (is_empty k) _
        (when c.is_mounted _ (load-reset-IsPaged c' l m' (asks_first_page c' l m' refl)))
    where
      result : Option Started → CustomTable
      result o = elim o [ none ↦ c | some s ↦ finish s.table s.pending (token (server s.request)) ]

      when :
          (b : Bool) (s : Started)
          → IsPaged (finish s.table s.pending (token (server s.request)))
          → IsPaged (result (if b then some s else none))
      when true s h = h
      when false s h = p

      unless :
          (b : Bool) (o : Option Started)
          → IsPaged (result o)
          → IsPaged (result (if b then none else o))
      unless true o h = p
      unless false o h = h
  served-IsPaged c (request_filter g) m f v p =
      load-reset-IsPaged c (filter_load g) m (asks_first_page c (filter_load g) m (rw f p.first))
  served-IsPaged c (request_rows_per_page n) m f v p =
      load-reset-IsPaged c (rows_load n) m (asks_first_page c (rows_load n) m refl)
  served-IsPaged c refresh m f v p = reloaded-IsPaged c none p

  -- The first load, when it succeeds, makes the token list of the constructed table follow the
  -- server.
  pub construct-IsPaged :
      (columns : List Column) (sort_column : Option Text) (order : Option SortOrder)
      → IsPaged (served (construct columns sort_column order) (page_changed stay))
  unfolding construct new_current_page
  construct-IsPaged columns sort_column order =
      served_page-IsPaged (construct columns sort_column order) stay [] refl
        (record { first = refl; chained = tt })
