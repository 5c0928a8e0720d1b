-- ===== src/Table/Events/Turning/LastPage.antt =====
-- Turning the pages of the table forward, up to the last.
use mathlib.Core.Path.{subst}
use metadata.Prelude.{
  ℕ, zero, suc, ◌≤◌, ◌<◌, ◌≡◌, refl, sym, ap, ◌∙◌, true, false, List, [], ◌∷◌, ◌++◌, Option, some,
  length, arith,
}
use metadata.Prelude.Texts.{Text}
use metadata.Value.{is_empty}
use metadata.Rows.{ListRequest, Column}
use metadata.Table.State.{SortOrder, CustomTable, max_safe_integer, reload, reload_done, construct}
use metadata.Table.Events.{page_changed, stay, forward, page_load, new_current_page}
use metadata.Table.View.{footer_of}
use metadata.Table.Events.Tokens.{served, page_request, reloaded_tokens}
use metadata.Table.Events.Turning.{
  token_at, page_loaded-more, page_loaded-last, turned, served-turned, turned-mounted, turned-query,
  IsAt, IsLast, step-IsAt, step-IsLast,
}

module _ (server : ListRequest → Text) where
  forward_disabled-last :
      (k : ℕ) (c : CustomTable) → IsLast server k c → (footer_of c.state).forward_disabled ≡ true
  unfolding footer_of
  forward_disabled-last k c last = let p = last.page in let q = last.most in ground arith

  pub turn_forward : ℕ → CustomTable → CustomTable
  turn_forward zero c = c
  turn_forward (suc n) c = served server (turn_forward n c) (page_changed forward)

  module _ (columns : List Column) (sort_column : Option Text) (order : Option SortOrder) where
    abbrev pub opened : CustomTable
    opened = served server (construct columns sort_column order) (page_changed stay)

    -- The token that the server gives for the page after the one of token `t`, in the first query.
    abbrev pub next_token : Text → Text
    next_token t = server (page_request (construct columns sort_column order) t)

    opened-turned : opened ≡ turned server (construct columns sort_column order) stay []
    unfolding construct new_current_page
    opened-turned = served-turned server (construct columns sort_column order) stay [] refl

    opened-IsAt : is_empty (next_token []) ≡ false → IsAt server next_token 0 opened
    unfolding construct new_current_page
    opened-IsAt more =
        let c = construct columns sort_column order in
        let d = reload_done (reload c (page_load (some []))).0 in
        let (m, page, most, tokens) =
          page_loaded-more d 0 max_safe_integer (server (page_request c []))
            (turned-mounted server c [] refl) more
            (sym (ap length (reloaded_tokens server c (page_load (some []))))) in
        subst (IsAt server next_token 0) (sym opened-turned) (record {
          mounted = m;
          page = page;
          most = most;
          tokens =
              tokens
              ∙ (λ j. reloaded_tokens server c (page_load (some [])) j ++ next_token [] ∷ []);
          query = λ u. ap server (turned-query server c stay [] u);
        })

    opened-IsLast : is_empty (next_token []) ≡ true → IsLast server 0 opened
    unfolding construct new_current_page
    opened-IsLast none_left =
        let c = construct columns sort_column order in
        let d = reload_done (reload c (page_load (some []))).0 in
        let (m, page, most) =
          page_loaded-last d 0 max_safe_integer (server (page_request c []))
            (turned-mounted server c [] refl) none_left in
        subst (IsLast server 0) (sym opened-turned)
          (record { mounted = m; page = page; most = most })

    turn_forward-IsAt :
        (n : ℕ)
        → n < max_safe_integer
        → ((k : ℕ) → k ≤ n → is_empty (token_at next_token (suc k)) ≡ false)
        → IsAt server next_token n (turn_forward n opened)
    unfolding turn_forward
    turn_forward-IsAt zero l more = opened-IsAt (more 0 (omega arith))
    turn_forward-IsAt (suc n) l more =
        step-IsAt server next_token n (turn_forward n opened)
          (turn_forward-IsAt n (omega arith) (λ k h. more k (omega arith))) (omega arith)
          (more (suc n) (omega arith))

    reached-IsLast :
        (n : ℕ)
        → n < max_safe_integer
        → ((k : ℕ) → k < n → is_empty (token_at next_token (suc k)) ≡ false)
        → is_empty (token_at next_token (suc n)) ≡ true
        → IsLast server n (turn_forward n opened)
    unfolding turn_forward
    reached-IsLast zero l more none_left = opened-IsLast none_left
    reached-IsLast (suc n) l more none_left =
        step-IsLast server next_token n (turn_forward n opened)
          (turn_forward-IsAt n (omega arith) (λ k h. more k (omega arith))) (omega arith) none_left

    -- Where the server gives a next page's token for the pages before the page of index `n`, counted
    -- from 0, and none for that page, the table that is opened and turned server forward `n` times is on that
    -- page, and knows that it is the last one: the button that leads on is disabled.
    pub turn_forward-IsLast :
        (n : ℕ)
        → n < max_safe_integer
        → ((k : ℕ) → k < n → is_empty (token_at next_token (suc k)) ≡ false)
        → is_empty (token_at next_token (suc n)) ≡ true
        → IsLast server n (turn_forward n opened)
          × ((footer_of (turn_forward n opened).state).forward_disabled ≡ true)
    turn_forward-IsLast n l more none_left =
        let last = reached-IsLast n l more none_left in
        (last, forward_disabled-last n (turn_forward n opened) last)
