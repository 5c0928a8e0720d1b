-- ===== src/Lists/Expand.antt =====
-- `toggleRowExpand` of the two list pages, and the rows that an expanded group shows.
use metadata.Prelude.{
  ℕ, zero, suc, ◌≡◌, ◌≢◌, refl, List, [], ◌∷◌, Option, none, some, get_elem?, set, ◌∙◌, sym,
}
use metadata.Rows.{Row, ExpandState, expanded, collapsed, none_state}

abbrev pub next_state : Option ExpandState → ExpandState
next_state (some expanded) = collapsed
next_state _ = expanded

unfoldable pub toggle_row_expand : List Row → ℕ → List Row
toggle_row_expand rows index = elim (get_elem? rows index) [
  | none ↦ rows
  | some r ↦ set rows index (record r { expand_state = some (next_state r.expand_state) })
]

set-set {ℓ} : {A : Type ℓ} (xs : List A) (i : ℕ) (a b : A) → set (set xs i a) i b ≡ set xs i b
set-set [] i a b = refl
set-set (x ∷ xs) zero a b = refl
set-set (x ∷ xs) (suc i) a b = λ k. x ∷ set-set xs i a b k

pub get-set {ℓ} :
    {A : Type ℓ} (xs : List A) (i : ℕ) (a : A) {r : A}
    → get_elem? xs i ≡ some r
    → get_elem? (set xs i a) i ≡ some a
get-set [] i a h = cc
get-set (x ∷ xs) zero a h = refl
get-set (x ∷ xs) (suc i) a h = get-set xs i a h

set-same {ℓ} :
    {A : Type ℓ} (xs : List A) (i : ℕ) {r : A} → get_elem? xs i ≡ some r → set xs i r ≡ xs
set-same [] i h = refl
set-same (x ∷ xs) zero h = cc
set-same (x ∷ xs) (suc i) {r} h = λ k. x ∷ set-same xs i {r = r} h k

unfoldable pub with_state : Row → ExpandState → Row
with_state r e = record r { expand_state = some e }

with_state-same : (r : Row) (e : ExpandState) → r.expand_state ≡ some e → with_state r e ≡ r
unfolding with_state
with_state-same r e s = λ k. record {
  expand_state = sym s k;
  error = r.error;
  id = r.id;
  other_fields = r.other_fields;
}

next_state-next_state :
    (e : ExpandState) → e ≢ none_state → next_state (some (next_state (some e))) ≡ e
next_state-next_state expanded ne = refl
next_state-next_state collapsed ne = refl
next_state-next_state none_state ne = absurd (ne refl)

toggled-back :
    (o : Option ExpandState) (e : ExpandState)
    → o ≡ some e
    → e ≢ none_state
    → o ≡ some (next_state (some (next_state o)))
toggled-back o e s ne = rw s (λ k. some (sym (next_state-next_state e ne) k))

pub toggle_row_expand-at :
    (rows : List Row) (index : ℕ) (r : Row)
    → get_elem? rows index ≡ some r
    → toggle_row_expand rows index ≡ set rows index (with_state r (next_state r.expand_state))
unfolding toggle_row_expand with_state
toggle_row_expand-at rows index r h = rw (h, toggle_row_expand) refl

-- Toggling an expanded or a collapsed group twice gives the same rows back.
toggle_row_expand-twice :
    (rows : List Row) (index : ℕ) (r : Row) (e : ExpandState)
    → get_elem? rows index ≡ some r
    → r.expand_state ≡ some e
    → e ≢ none_state
    → toggle_row_expand (toggle_row_expand rows index) index ≡ rows
unfolding with_state
toggle_row_expand-twice rows index r e h s ne =
    let closed : with_state (with_state r (next_state r.expand_state))
          (next_state (some (next_state r.expand_state)))
        ≡ r =
      with_state-same r (next_state (some (next_state r.expand_state)))
        (toggled-back r.expand_state e s ne) in
    let opened = with_state r (next_state r.expand_state) in
    (λ k. toggle_row_expand (toggle_row_expand-at rows index r h k) index)
    ∙ toggle_row_expand-at (set rows index opened) index opened (get-set rows index opened h)
    ∙ set-set rows index opened (with_state opened (next_state opened.expand_state))
    ∙ (λ k. set rows index (closed k))
    ∙ set-same rows index h
