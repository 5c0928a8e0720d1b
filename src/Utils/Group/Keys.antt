-- ===== src/Utils/Group/Keys.antt =====
-- What the groups of `groupRows` hold: the rows of one key, in their order, each key once.
use metadata.Prelude.{
  ◌≡◌, refl, sym, ap, ◌∙◌, false, List, [], ◌∷◌, ◌++◌, if◌then◌else◌, arith, Bool-cases, inl, inr,
  filter_by, All, append_assoc, append-nil,
}
use metadata.Value.{Value, value_eq, value_eq_iff}
use metadata.Rows.{Row, group_key}
use metadata.Utils.Group.{Group, add_row, flatten_from, flattened_rows}

-- The rows of key `k`, in order.
abbrev pub rows_with : Value → List Row → List Row
rows_with k = filter_by (λ r. value_eq (group_key r) k)

-- The keys in the order of their first appearance, after those seen before.
pub add_key : List Value → Value → List Value
add_key [] k = k ∷ []
add_key (j ∷ js) k = if value_eq j k then j ∷ js else j ∷ add_key js k

pub distinct_from : List Value → List Row → List Value
distinct_from seen [] = seen
distinct_from seen (r ∷ rs) = distinct_from (add_key seen (group_key r)) rs

abbrev pub keys : List Group → List Value
keys [] = []
keys (g ∷ m) = g.key ∷ keys m

-- The rows of the first group with key `k`.
abbrev pub rows_of : Value → List Group → List Row
rows_of k [] = []
rows_of k (g ∷ m) = if value_eq g.key k then g.first ∷ g.rest else rows_of k m

rows_of-add_row :
    (k : Value) (m : List Group) (r : Row)
    → rows_of k (add_row m r) ≡ rows_of k m ++ rows_with k (r ∷ [])
unfolding add_row
rows_of-add_row k [] r = ground arith
rows_of-add_row k (g ∷ m) r = elim (Bool-cases (value_eq g.key (group_key r))) [
  | inl same ↦
      let key : group_key r ≡ g.key = sym ((value_eq_iff g.key (group_key r)).0 same) in
      rw (same, key)
        (elim (Bool-cases (value_eq g.key k)) [ inl e ↦ rw e | inr e ↦ rw e (sym (append-nil _)) ])
  | inr other ↦ rw other (elim (Bool-cases (value_eq g.key k)) [
    | inl e ↦
        let apart : value_eq (group_key r) k ≡ false = ground (
          arith,
          value_eq_iff g.key k,
          value_eq_iff (group_key r) k,
          value_eq_iff g.key (group_key r),
        ) in
        rw (e, apart) (sym (append-nil _))
    | inr e ↦ rw e (rows_of-add_row k m r)
  ])
]

keys-add_row : (m : List Group) (r : Row) → keys (add_row m r) ≡ add_key (keys m) (group_key r)
unfolding add_row add_key
keys-add_row [] r = refl
keys-add_row (g ∷ m) r = ground (arith, keys-add_row m r)

keys-flatten_from :
    (m : List Group) (rows : List Row) → keys (flatten_from m rows) ≡ distinct_from (keys m) rows
unfolding flatten_from distinct_from
keys-flatten_from m [] = refl
keys-flatten_from m (r ∷ rows) =
    keys-flatten_from (add_row m r) rows ∙ ap (λ s. distinct_from s rows) (keys-add_row m r)

-- The groups' keys are the rows' keys, each once, in the order of first appearance.
pub keys-flattened_rows : (rows : List Row) → keys (flattened_rows rows) ≡ distinct_from [] rows
unfolding flattened_rows
keys-flattened_rows rows = keys-flatten_from [] rows

filter_by-split :
    (k : Value) (r : Row) (rows : List Row)
    → rows_with k (r ∷ rows) ≡ rows_with k (r ∷ []) ++ rows_with k rows
filter_by-split k r rows = ground arith

rows_of-flatten_from :
    (k : Value) (m : List Group) (rows : List Row)
    → rows_of k (flatten_from m rows) ≡ rows_of k m ++ rows_with k rows
unfolding flatten_from
rows_of-flatten_from k m [] = sym (append-nil _)
rows_of-flatten_from k m (r ∷ rows) =
    rows_of-flatten_from k (add_row m r) rows
    ∙ ap (λ x. x ++ rows_with k rows) (rows_of-add_row k m r)
    ∙ append_assoc (rows_of k m) (rows_with k (r ∷ [])) (rows_with k rows)
    ∙ ap (λ x. rows_of k m ++ x) (sym (filter_by-split k r rows))

-- The group of a key holds all rows of that key, in order.
pub rows_of-flattened_rows :
    (k : Value) (rows : List Row) → rows_of k (flattened_rows rows) ≡ rows_with k rows
unfolding flattened_rows
rows_of-flattened_rows k rows = rows_of-flatten_from k [] rows

-- The key differs from all of the list.
abbrev pub IsNew : Value → List Value → Type 0
IsNew k = All (λ j. value_eq j k ≡ false)

abbrev pub AreDistinct : List Value → Type 0
AreDistinct [] = Unit
AreDistinct (k ∷ ks) = IsNew k ks × AreDistinct ks

add_key-IsNew :
    (j k : Value) (ks : List Value) → value_eq j k ≡ false → IsNew j ks → IsNew j (add_key ks k)
unfolding add_key
add_key-IsNew j k [] e h = (ground (arith, value_eq_iff k j, value_eq_iff j k), tt)
add_key-IsNew j k (i ∷ ks) e h = elim (Bool-cases (value_eq i k)) [
  | inl same ↦ rw same h
  | inr other ↦ rw other (h.0, add_key-IsNew j k ks e h.1)
]

add_key-AreDistinct : (k : Value) (ks : List Value) → AreDistinct ks → AreDistinct (add_key ks k)
unfolding add_key
add_key-AreDistinct k [] h = (tt, tt)
add_key-AreDistinct k (j ∷ ks) h = elim (Bool-cases (value_eq j k)) [
  | inl same ↦ rw same h
  | inr other ↦ rw other (add_key-IsNew j k ks other h.0, add_key-AreDistinct k ks h.1)
]

pub distinct_from-AreDistinct :
    (seen : List Value) (rows : List Row) → AreDistinct seen → AreDistinct (distinct_from seen rows)
unfolding distinct_from
distinct_from-AreDistinct seen [] h = h
distinct_from-AreDistinct seen (r ∷ rows) h =
    distinct_from-AreDistinct (add_key seen (group_key r)) rows
      (add_key-AreDistinct (group_key r) seen h)
