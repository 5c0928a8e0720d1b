-- ===== src/Table/Events/Requests.antt =====
-- Which page the handlers that change the query ask for.
use metadata.Prelude.{ℕ, ◌≡◌, refl, true, false, [], Option, none, some, get_elem?}
use metadata.Prelude.Texts.{Text}
use metadata.Value.{is_empty}
use metadata.Table.State.{CustomTable}
use metadata.Table.Events.{request_sort, request_filter, request_rows_per_page, Started, start}

-- The page token of the request that a handler sends, if it sends one.
abbrev pub token_of : Option Started → Option (Option Text)
token_of none = none
token_of (some s) = some s.request.page_token

-- On a mounted table the handlers that change the query ask for the first page of the new one,
-- except the filter's: it sends the new filter with the token of the page that is shown, and the
-- table then takes the reply for the first page's.
query_requests :
    (c : CustomTable) (f : Option Text) (n : ℕ) (k : Text)
    → c.is_mounted ≡ true
    → is_empty k ≡ false
    → (token_of (start c (request_rows_per_page n)) ≡ some (some []))
      × (token_of (start c (request_sort (some k))) ≡ some (some []))
      × (token_of (start c (request_filter f))
          ≡ some (get_elem? c.state.token_list c.state.current_page))
unfolding start
query_requests c f n k m e = (refl, rw (e, m), refl)
