-- ===== src/Utils/Group/Kept.antt =====
-- Which rows `groupRows` keeps: all of them, each once.
use mathlib.Core.List.{Perm, perm_append_comm}
use mathlib.Core.List.Perm
use metadata.Prelude.{
  ℕ, suc, ◌≡◌, refl, ap, List, [], ◌∷◌, ◌++◌, map, Bool-cases, inl, inr, append_assoc, append-nil,
}
use metadata.Prelude.Texts.{Text}
use metadata.Value.{value_eq}
use metadata.Rows.{Row, group_key}
use metadata.Utils.Group.{
  Group, add_row, flatten_from, flattened_rows, hide, collapsed_row, number_from, group_rows,
}
use metadata.Utils.Group.Shown.{collapsed_row-id}

abbrev pub ids : List Row → List Text
ids = map (λ r. r.id)

-- All rows that the expanded groups hold.
abbrev pub all_hidden : List (ℕ × List Row) → List Row
all_hidden [] = []
all_hidden ((i, rows) ∷ m) = rows ++ all_hidden m

abbrev contents : List Group → List Row
contents [] = []
contents (g ∷ m) = g.first ∷ (g.rest ++ contents m)

contents-add_row : (m : List Group) (r : Row) → Perm (contents (add_row m r)) (contents m ++ r ∷ [])
unfolding add_row
contents-add_row [] r = Perm.refl _
contents-add_row (g ∷ m) r = elim (Bool-cases (value_eq g.key (group_key r))) [
  | inl e ↦
      rw (e, append_assoc, append_assoc)
        (Perm.append_left (g.first ∷ g.rest) (perm_append_comm (r ∷ []) (contents m)))
  | inr e ↦ rw (e, append_assoc) (Perm.append_left (g.first ∷ g.rest) (contents-add_row m r))
]

contents-flatten_from :
    (m : List Group) (rows : List Row) → Perm (contents (flatten_from m rows)) (contents m ++ rows)
unfolding flatten_from
contents-flatten_from m [] = rw append-nil (Perm.refl _)
contents-flatten_from m (r ∷ rows) =
    Perm.trans (contents-flatten_from (add_row m r) rows)
      (rw append_assoc at (Perm.append_right rows (contents-add_row m r)))

hide-id : (rows : List Row) → ids (map hide rows) ≡ ids rows
unfolding hide
hide-id [] = refl
hide-id (r ∷ rows) = ap (r.id ∷◌) (hide-id rows)

ids-append : (xs ys : List Row) → ids (xs ++ ys) ≡ ids xs ++ ids ys
ids-append [] ys = refl
ids-append (x ∷ xs) ys = ap (x.id ∷◌) (ids-append xs ys)

shown-ids :
    (j : ℕ) (m : List Group)
    → Perm (ids (map collapsed_row m) ++ ids (all_hidden (number_from j m))) (ids (contents m))
unfolding number_from
shown-ids j [] = Perm.refl _
shown-ids j (g ∷ m) =
    rw (collapsed_row-id, ids-append, ids-append, hide-id)
      (Perm.cons _ (
        Perm.trans (swap_front (ids (map collapsed_row m)) (ids g.rest) _)
          (Perm.append_left (ids g.rest) (shown-ids (suc j) m))))
  where
    swap_front : (a b c : List Text) → Perm (a ++ (b ++ c)) (b ++ (a ++ c))
    swap_front a b c =
        rw (← append_assoc) (rw (← append_assoc b a c) (Perm.append_right c (perm_append_comm a b)))

-- No row is lost and none is shown twice: the collapsed and the hidden rows together have the ids
-- of the rows that came in, each as often.
pub group_rows-perm :
    (rows : List Row)
    → Perm
        (ids (group_rows rows).collapsed_rows ++ ids (all_hidden (group_rows rows).expanded_rows))
        (ids rows)
unfolding group_rows flattened_rows
group_rows-perm rows =
    Perm.trans (shown-ids 0 (flattened_rows rows))
      (Perm.map (λ r. r.id) (contents-flatten_from [] rows))
