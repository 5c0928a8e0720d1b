-- ===== src/Utils/Group/Shown.antt =====
-- What `groupRows` returns: the collapsed rows and, for each index, the rows that expanding it
-- shows.
use mathlib.Core.Path.{subst}
use native.Mathlib.Nat.{zero-add}
use metadata.Prelude.{
  ℕ, zero, suc, ◌+◌, ◌≡◌, refl, sym, ap, ◌∙◌, false, List, [], ◌∷◌, map, some, ◌==◌, if◌then◌else◌,
  length, arith, Bool-cases, inl, inr, All, get_elem?,
}
use metadata.Value.{Value, value_eq, value_eq_iff}
use metadata.Rows.{Row, group_key, none_state}
use metadata.Utils.Group.{
  Group, add_row, flatten_from, flattened_rows, hide, collapsed_row, number_from, group_rows,
  get_expanded_row,
}
use metadata.Utils.Group.Keys.{
  rows_with, distinct_from, keys, rows_of, rows_of-flattened_rows, keys-flattened_rows, AreDistinct,
  IsNew, distinct_from-AreDistinct,
}

-- Every group is kept under its first row's key.
abbrev AreKeyed : List Group → Type 0
AreKeyed = All (λ g. group_key g.first ≡ g.key)

add_row-AreKeyed : (m : List Group) (r : Row) → AreKeyed m → AreKeyed (add_row m r)
unfolding add_row
add_row-AreKeyed [] r h = (refl, tt)
add_row-AreKeyed (g ∷ m) r h = elim (Bool-cases (value_eq g.key (group_key r))) [
  | inl e ↦ rw e h
  | inr e ↦ rw e (h.0, add_row-AreKeyed m r h.1)
]

flatten_from-AreKeyed :
    (m : List Group) (rows : List Row) → AreKeyed m → AreKeyed (flatten_from m rows)
unfolding flatten_from
flatten_from-AreKeyed m [] h = h
flatten_from-AreKeyed m (r ∷ rows) h =
    flatten_from-AreKeyed (add_row m r) rows (add_row-AreKeyed m r h)

flattened_rows-AreKeyed : (rows : List Row) → AreKeyed (flattened_rows rows)
unfolding flattened_rows
flattened_rows-AreKeyed rows = flatten_from-AreKeyed [] rows tt

-- What marking and hiding leave alone.
collapsed_row-key : (g : Group) → group_key (collapsed_row g) ≡ group_key g.first
unfolding collapsed_row
collapsed_row-key g = ground arith

pub collapsed_row-id : (g : Group) → (collapsed_row g).id ≡ g.first.id
unfolding collapsed_row
collapsed_row-id g = ground arith

map-keys : (m : List Group) → AreKeyed m → map group_key (map collapsed_row m) ≡ keys m
map-keys [] h = refl
map-keys (g ∷ m) h = cc (map-keys m h.1, collapsed_row-key g, h.0)

-- The collapsed rows show each key of the first column once, in the order in which the rows first
-- show it.
pub group_rows-distinct :
    (rows : List Row)
    → (map group_key (group_rows rows).collapsed_rows ≡ distinct_from [] rows)
      × AreDistinct (map group_key (group_rows rows).collapsed_rows)
unfolding group_rows
group_rows-distinct rows =
    let e =
      map-keys (flattened_rows rows) (flattened_rows-AreKeyed rows) ∙ keys-flattened_rows rows in
    (e, rw e (distinct_from-AreDistinct [] rows tt))

-- Looking up the rows of index `j + i` among groups numbered from `j`.
get_expanded_row-number_from :
    (j i : ℕ) (m : List Group) (g : Group)
    → get_elem? m i ≡ some g
    → get_expanded_row (number_from j m) (j + i) ≡ map hide g.rest
unfolding get_expanded_row number_from
get_expanded_row-number_from j i [] g h = cc
get_expanded_row-number_from j zero (f ∷ m) g h = ground arith
get_expanded_row-number_from j (suc i) (f ∷ m) g h =
    let e : (j == j + suc i) ≡ false = ground arith in
    rw e (
      let n : j + suc i ≡ suc j + i = omega arith in
      rw n (get_expanded_row-number_from (suc j) i m g h))

IsNew-at :
    (k : Value) (m : List Group) (i : ℕ) (g : Group)
    → IsNew k (keys m)
    → get_elem? m i ≡ some g
    → value_eq g.key k ≡ false
IsNew-at k [] i g n h = cc
IsNew-at k (f ∷ m) zero g n h = cc (n.0)
IsNew-at k (f ∷ m) (suc i) g n h = IsNew-at k m i g n.1 h

rows_of-at :
    (m : List Group) (i : ℕ) (g : Group)
    → AreDistinct (keys m)
    → get_elem? m i ≡ some g
    → rows_of g.key m ≡ g.first ∷ g.rest
rows_of-at [] i g d h = cc
rows_of-at (f ∷ m) zero g d h = ground (arith, value_eq_iff f.key g.key)
rows_of-at (f ∷ m) (suc i) g d h =
    let new : value_eq g.key f.key ≡ false = IsNew-at f.key m i g d.0 h in
    let e : value_eq f.key g.key ≡ false =
      ground (arith, value_eq_iff f.key g.key, value_eq_iff g.key f.key) in
    rw e (rows_of-at m i g d.1 h)

get_elem?-map {ℓ κ} :
    {A : Type ℓ} {B : Type κ} (f : A → B) (xs : List A) (i : ℕ) {b : B}
    → get_elem? (map f xs) i ≡ some b
    → (a : A) × (get_elem? xs i ≡ some a) × (b ≡ f a)
get_elem?-map f [] i h = cc
get_elem?-map f (x ∷ xs) zero h = (x, refl, cc)
get_elem?-map f (x ∷ xs) (suc i) h = get_elem?-map f xs i h

All-at {ℓ κ} :
    {A : Type ℓ} (P : A → Type κ) (xs : List A) (i : ℕ) {a : A}
    → All P xs
    → get_elem? xs i ≡ some a
    → P a
All-at P [] i h e = cc
All-at P (x ∷ xs) zero {a} h e = let q : x ≡ a = cc in subst P q h.0
All-at P (x ∷ xs) (suc i) h e = All-at P xs i h.1 e

-- A row that is alone in its group cannot be expanded.
abbrev pub marked : Row → List Row → Row
marked first [] = record first { expand_state = some none_state }
marked first (r ∷ rest) = first

collapsed_row-marked : (g : Group) → collapsed_row g ≡ marked g.first g.rest
unfolding collapsed_row
collapsed_row-marked g = go g.first g.rest
  where
    go :
        (first : Row) (rest : List Row)
        → (if length (first ∷ rest) == 1
            then record first { expand_state = some none_state }
            else first)
          ≡ marked first rest
    go first [] = refl
    go first (r ∷ rest) = ground arith

-- At each index the collapsed row is the first row of its key, expanding it shows the other rows
-- of that key in their order with the first cell blanked, and the row is marked as not expandable
-- exactly when it is the only one of its key.
pub group_rows-group :
    (rows : List Row) (i : ℕ) (c : Row)
    → get_elem? (group_rows rows).collapsed_rows i ≡ some c
    → (first : Row) × (rest : List Row) × (rows_with (group_key c) rows ≡ first ∷ rest)
      × (c ≡ marked first rest)
      × (get_expanded_row (group_rows rows).expanded_rows i ≡ map hide rest)
unfolding group_rows
group_rows-group rows i c h =
    let (g, at_i, e) = get_elem?-map collapsed_row (flattened_rows rows) i h in
    let key : group_key c ≡ g.key =
      ap group_key e
      ∙ collapsed_row-key g
      ∙ All-at (λ f. group_key f.first ≡ f.key) (flattened_rows rows) i
          (flattened_rows-AreKeyed rows) at_i in
    let distinct : AreDistinct (keys (flattened_rows rows)) =
      rw keys-flattened_rows (distinct_from-AreDistinct [] rows tt) in
    let shown : get_expanded_row (number_from 0 (flattened_rows rows)) i ≡ map hide g.rest =
      at_zero i g.rest (get_expanded_row-number_from 0 i (flattened_rows rows) g at_i) in
    (
      g.first,
      g.rest,
      ap (λ k. rows_with k rows) key
          ∙ sym (rows_of-flattened_rows g.key rows)
          ∙ rows_of-at (flattened_rows rows) i g distinct at_i,
      e ∙ collapsed_row-marked g,
      shown,
    )
  where
    at_zero :
        (j : ℕ) (rest : List Row)
        → get_expanded_row (number_from 0 (flattened_rows rows)) (0 + j) ≡ map hide rest
        → get_expanded_row (number_from 0 (flattened_rows rows)) j ≡ map hide rest
    at_zero j rest q = rw zero-add at q
