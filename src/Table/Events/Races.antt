-- ===== src/Table/Events/Races.antt =====
-- A handler that is overtaken by another: the replies come in another order than the requests.
use metadata.Prelude.{
  ℕ, zero, suc, ◌+◌, ◌≤◌, ◌≡◌, refl, true, false, none, some, get_elem?, ◌==◌, arith, Bool-cases,
  inl, inr,
}
use metadata.Prelude.Texts.{Text}
use metadata.Value.{is_empty}
use metadata.Table.State.{CustomTable, reload, request_of, assign, reload_done}
use metadata.Table.Events.{
  to_page, to_first_page, token, page_loaded, reset_to_first_page, finish, push_token, start, load,
  refresh, Started,
}

overtaken-page :
    (c : CustomTable) (n most : ℕ) (t u : Text)
    → c.is_mounted ≡ true
    → 2 ≤ n
    → let d = finish (finish c to_first_page (token t)) (to_page n most) (token u) in
      (d.state.current_page ≡ n) × (get_elem? d.state.token_list n ≡ none)
unfolding finish page_loaded reset_to_first_page reload_done push_token
overtaken-page c zero most t u m h = absurd (omega arith)
overtaken-page c (suc zero) most t u m h = absurd (omega arith)
overtaken-page c (suc (suc k)) most t u m h =
    let past : (suc (suc k) + 1 == 2) ≡ false = ground arith in
    let past' : (suc (suc k) + 1 == 1) ≡ false = ground arith in
    elim (Bool-cases (is_empty t)) [
      | inl e ↦ elim (Bool-cases (is_empty u)) [
        | inl f ↦ rw (m, e, f) (refl, refl)
        | inr f ↦ rw (m, e, f, past') (refl, refl)
      ]
      | inr e ↦ elim (Bool-cases (is_empty u)) [
        | inl f ↦ rw (m, e, f) (refl, refl)
        | inr f ↦ rw (m, e, f, past) (refl, refl)
      ]
    ]

-- A page change to a page after the second that is answered after a mounted table has been reset (by
-- a sort, a filter or a new page size) leaves the table on that page, for which it has no token, so
-- that a refresh asks for rows without a page token.
pub overtaken-refresh :
    (c : CustomTable) (n most : ℕ) (t u : Text)
    → c.is_mounted ≡ true
    → 2 ≤ n
    → let d = finish (finish c to_first_page (token t)) (to_page n most) (token u) in
      (d.state.current_page ≡ n)
      × (get_elem? d.state.token_list n ≡ none)
      × (s : Started) × (start d refresh ≡ some s)
      × (s.request.page_token ≡ none)
unfolding start load reload request_of assign
overtaken-refresh c n most t u m h =
    let (page, token_gone) = overtaken-page c n most t u m h in
    (page, token_gone, _, refl, rw page token_gone)
