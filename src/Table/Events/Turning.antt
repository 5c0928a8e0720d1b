-- ===== src/Table/Events/Turning.antt =====
-- Turning the pages of the table forward: one page change.
pub mod LastPage
use mathlib.Core.Path.{subst}
use metadata.Prelude.{
  ℕ, zero, suc, ◌+◌, ◌≤◌, ◌<◌, ◌≡◌, refl, sym, ap, ◌∙◌, true, false, List, [], ◌∷◌, ◌++◌, Option,
  some, get_elem?, length, length-append, arith,
}
use metadata.Prelude.Texts.{Text}
use metadata.Value.{is_empty}
use metadata.Rows.{ListRequest, Column}
use metadata.Table.State.{
  SortOrder, CustomTable, CustomTableState, max_safe_integer, reload, reload_done, construct,
}
use metadata.Table.Events.{
  page_changed, stay, forward, Offset, start, finish, load, page_load, page_changed_start,
  new_current_page, page_loaded, push_token,
}
use metadata.Table.View.{footer_of}
use metadata.Table.Events.Tokens.{
  served, page_request, query_kept, page_loaded-query, reloaded_tokens,
}

-- The tokens that a server gives one after the other, and the list of the first of them.
abbrev pub token_at : (Text → Text) → ℕ → Text
token_at f zero = []
token_at f (suc k) = f (token_at f k)

abbrev pub tokens_to : (Text → Text) → ℕ → List Text
tokens_to f zero = [] ∷ []
tokens_to f (suc k) = tokens_to f k ++ token_at f (suc k) ∷ []

length-tokens_to : (f : Text → Text) (k : ℕ) → length (tokens_to f k) ≡ k + 1
length-tokens_to f zero = refl
length-tokens_to f (suc k) =
    omega (arith, length-append (tokens_to f k) (token_at f (suc k) ∷ []), length-tokens_to f k)

get_elem?-last : (ts : List Text) (t : Text) → get_elem? (ts ++ t ∷ []) (length ts) ≡ some t
get_elem?-last [] t = refl
get_elem?-last (u ∷ ts) t = get_elem?-last ts t

get_elem?-tokens_to : (f : Text → Text) (k : ℕ) → get_elem? (tokens_to f k) k ≡ some (token_at f k)
get_elem?-tokens_to f zero = refl
get_elem?-tokens_to f (suc k) =
    (λ j. get_elem? (tokens_to f (suc k)) (suc_length f k j))
    ∙ get_elem?-last (tokens_to f k) (token_at f (suc k))
  where
    suc_length : (f : Text → Text) (k : ℕ) → suc k ≡ length (tokens_to f k)
    suc_length f k = let e = length-tokens_to f k in omega arith

-- The page that `_pageChanged` arrives at, when there is another one after it and when there is not.
pub page_loaded-more :
    (c : CustomTable) (n most : ℕ) (t : Text)
    → c.is_mounted ≡ true
    → is_empty t ≡ false
    → n + 1 ≡ length c.state.token_list
    → let d = page_loaded c n most t in
      (d.is_mounted ≡ true)
      × (d.state.current_page ≡ n)
      × (d.state.max_page_index ≡ most)
      × (d.state.token_list ≡ c.state.token_list ++ t ∷ [])
unfolding page_loaded push_token
page_loaded-more c n most t m e h = ground arith

pub page_loaded-last :
    (c : CustomTable) (n most : ℕ) (t : Text)
    → c.is_mounted ≡ true
    → is_empty t ≡ true
    → let d = page_loaded c n most t in
      (d.is_mounted ≡ true) × (d.state.current_page ≡ n) × (d.state.max_page_index ≡ n)
unfolding page_loaded
page_loaded-last c n most t m e = ground arith

module _ (server : ListRequest → Text) where
  -- The table after a page change, written out.
  abbrev pub turned : CustomTable → Offset → Text → CustomTable
  turned c o t =
      page_loaded (reload_done (reload c (page_load (some t))).0) (new_current_page c.state o)
        c.state.max_page_index (server (page_request c t))

  pub served-turned :
      (c : CustomTable) (o : Offset) (t : Text)
      → get_elem? c.state.token_list (new_current_page c.state o) ≡ some t
      → served server c (page_changed o) ≡ turned c o t
  unfolding served start finish page_changed_start load page_request
  served-turned c o t e =
      ap
        (λ x.
          page_loaded (reload_done (reload c (page_load x)).0) (new_current_page c.state o)
            c.state.max_page_index (server (reload c (page_load x)).1))
        e

  pub turned-mounted :
      (c : CustomTable) (t : Text)
      → c.is_mounted ≡ true
      → (reload_done (reload c (page_load (some t))).0).is_mounted ≡ true
  unfolding reload reload_done
  turned-mounted c t m = ground arith

  pub turned-query :
      (c : CustomTable) (o : Offset) (t u : Text) → page_request (turned c o t) u ≡ page_request c u
  turned-query c o t u =
      page_loaded-query server (reload_done (reload c (page_load (some t))).0)
        (new_current_page c.state o) c.state.max_page_index (server (page_request c t)) u
      ∙ query_kept server c (some (some t)) u

  -- The table is mounted and on page `k`, with the tokens up to the next page's, which there is.
  pub record IsAt (f : Text → Text) (k : ℕ) (c : CustomTable) : Type 0 where
    pub mounted : c.is_mounted ≡ true
    pub page : c.state.current_page ≡ k
    pub most : c.state.max_page_index ≡ max_safe_integer
    pub tokens : c.state.token_list ≡ tokens_to f (suc k)
    pub query : (t : Text) → server (page_request c t) ≡ f t

  -- The table is on its last page.
  pub record IsLast (k : ℕ) (c : CustomTable) : Type 0 where
    pub mounted : c.is_mounted ≡ true
    pub page : c.state.current_page ≡ k
    pub most : c.state.max_page_index ≡ k

  forward-next :
      (s : CustomTableState) (k : ℕ)
      → s.current_page ≡ k
      → s.max_page_index ≡ max_safe_integer
      → k < max_safe_integer
      → new_current_page s forward ≡ suc k
  unfolding new_current_page
  forward-next s k e h l = omega arith

  abbrev TokenAhead : (f : Text → Text) (k : ℕ) (c : CustomTable) → Type 0
  TokenAhead f k c =
      get_elem? c.state.token_list (new_current_page c.state forward) ≡ some (token_at f (suc k))

  IsAt-token :
      (f : Text → Text) (k : ℕ) (c : CustomTable)
      → IsAt f k c
      → k < max_safe_integer
      → TokenAhead f k c
  IsAt-token f k c a l =
      (λ j. get_elem? (a.tokens j) (forward-next c.state k a.page a.most l j))
      ∙ get_elem?-tokens_to f (suc k)

  pub step-IsAt :
      (f : Text → Text) (k : ℕ) (c : CustomTable)
      → IsAt f k c
      → k < max_safe_integer
      → is_empty (token_at f (suc (suc k))) ≡ false
      → IsAt f (suc k) (served server c (page_changed forward))
  step-IsAt f k c a l more =
      let t = token_at f (suc k) in
      let d = reload_done (reload c (page_load (some t))).0 in
      let n = forward-next c.state k a.page a.most l in
      let kept : d.state.token_list ≡ tokens_to f (suc k) =
        reloaded_tokens server c (page_load (some t)) ∙ a.tokens in
      let same = length-tokens_to f (suc k) in
      let next_page : new_current_page c.state forward + 1 ≡ length d.state.token_list =
        (λ j. n j + 1) ∙ sym same ∙ (λ j. length (sym kept j)) in
      let (m, page, most, tokens) =
        page_loaded-more d (new_current_page c.state forward) c.state.max_page_index
          (server (page_request c t)) (turned-mounted c t a.mounted)
          ((λ j. is_empty (a.query t j)) ∙ more) next_page in
      subst (IsAt f (suc k)) (sym (served-turned c forward t (IsAt-token f k c a l))) (record {
        mounted = m;
        page = page ∙ n;
        most = most ∙ a.most;
        tokens = tokens ∙ (λ j. kept j ++ a.query t j ∷ []);
        query = λ u. ap server (turned-query c forward t u) ∙ a.query u;
      })

  pub step-IsLast :
      (f : Text → Text) (k : ℕ) (c : CustomTable)
      → IsAt f k c
      → k < max_safe_integer
      → is_empty (token_at f (suc (suc k))) ≡ true
      → IsLast (suc k) (served server c (page_changed forward))
  step-IsLast f k c a l none_left =
      let t = token_at f (suc k) in
      let d = reload_done (reload c (page_load (some t))).0 in
      let n = forward-next c.state k a.page a.most l in
      let (m, page, most) =
        page_loaded-last d (new_current_page c.state forward) c.state.max_page_index
          (server (page_request c t)) (turned-mounted c t a.mounted)
          ((λ j. is_empty (a.query t j)) ∙ none_left) in
      subst (IsLast (suc k)) (sym (served-turned c forward t (IsAt-token f k c a l)))
        (record { mounted = m; page = page ∙ n; most = most ∙ n })
