-- ===== src/Table/Selection/Toggling.antt =====
-- What a click and the header's checkbox do to the selection.
use metadata.Prelude.{
  Bool, true, false, not, List, [], ◌∷◌, ◌++◌, some, if◌then◌else◌, find_index, ◌≡◌, refl, ap, ◌∙◌,
  Bool-cases, Option-cases, inl, inr, arith,
}
use metadata.Prelude.Texts.{Text, text_eq, text_eq_iff}
use metadata.Table.Selection.{SelectionProps, toggled, handle_click, is_selected}

abbrev pub selected_in : List Text → Text → Bool
selected_in [] id = false
selected_in (i ∷ ids) id = if text_eq i id then true else selected_in ids id

is_selected_lem : (ids : List Text) (id : Text) → is_selected (some ids) id ≡ selected_in ids id
unfolding is_selected
is_selected_lem [] id = refl
is_selected_lem (i ∷ ids) id = ground (arith, is_selected_lem ids id)

selected_in-concat :
    (ids : List Text) (a b : Text)
    → selected_in (ids ++ a ∷ []) b ≡ (if text_eq a b then true else selected_in ids b)
selected_in-concat [] a b = refl
selected_in-concat (i ∷ ids) a b = ground (arith, selected_in-concat ids a b)

-- No id is selected twice.
abbrev pub AreDistinct : List Text → Type 0
AreDistinct [] = Unit
AreDistinct (i ∷ ids) = (selected_in ids i ≡ false) × AreDistinct ids

under_cons :
    (b : Bool) (i : Text) (xs ys : List Text)
    → i ∷ (if b then xs else ys) ≡ (if b then i ∷ xs else i ∷ ys)
under_cons true i xs ys = refl
under_cons false i xs ys = refl

-- Taking out the entry that `indexOf` finds, by recursion.
remove : List Text → Text → List Text
remove [] a = []
remove (i ∷ ids) a = if text_eq i a then ids else i ∷ remove ids a

toggled-remove :
    (ids : List Text) (a : Text)
    → toggled ids a ≡ (if selected_in ids a then remove ids a else ids ++ a ∷ [])
unfolding toggled remove
toggled-remove [] a = refl
toggled-remove (i ∷ ids) a = elim (Bool-cases (text_eq i a)) [
  | inl e ↦ rw (e, toggled)
  | inr e ↦
      rw (e, toggled)
        (elim (Option-cases (find_index (λ x. text_eq x a) ids)) [
          | inl missing ↦
              rw (missing, toggled)
                (ap (i ∷◌) (rw (missing, toggled) at (toggled-remove ids a))
                  ∙ under_cons (selected_in ids a) i _ _)
          | inr (j, found) ↦
              rw (found, toggled)
                (ap (i ∷◌) (rw (found, toggled) at (toggled-remove ids a))
                  ∙ under_cons (selected_in ids a) i _ _)
        ])
]

selected_in-remove :
    (ids : List Text) (a b : Text)
    → AreDistinct ids
    → selected_in (remove ids a) b ≡ (if text_eq a b then false else selected_in ids b)
unfolding remove
selected_in-remove [] a b d = ground arith
selected_in-remove (i ∷ ids) a b d =
    ground (
      arith,
      text_eq_iff i a,
      text_eq_iff i b,
      text_eq_iff a b,
      selected_in-remove ids a b d.1,
      d.0,
    )

AreDistinct-remove : (ids : List Text) (a : Text) → AreDistinct ids → AreDistinct (remove ids a)
unfolding remove
AreDistinct-remove [] a d = tt
AreDistinct-remove (i ∷ ids) a d = elim (Bool-cases (text_eq i a)) [
  | inl e ↦ rw e d.1
  | inr e ↦ rw e (ground (arith, selected_in-remove ids a i d.1, d.0), AreDistinct-remove ids a d.1)
]

AreDistinct-concat :
    (ids : List Text) (a : Text)
    → AreDistinct ids
    → selected_in ids a ≡ false
    → AreDistinct (ids ++ a ∷ [])
AreDistinct-concat [] a d e = (refl, tt)
AreDistinct-concat (i ∷ ids) a d e = (
  ground (arith, text_eq_iff i a, text_eq_iff a i, selected_in-concat ids a i, d.0),
  AreDistinct-concat ids a d.1 (ground arith),
)

pub toggled-AreDistinct :
    (ids : List Text) (id : Text) → AreDistinct ids → AreDistinct (toggled ids id)
toggled-AreDistinct ids id d = rw toggled-remove (elim (Bool-cases (selected_in ids id)) [
  | inl e ↦ rw e (AreDistinct-remove ids id d)
  | inr e ↦ rw e (AreDistinct-concat ids id d e)
])

selected_in-toggled :
    (ids : List Text) (id other : Text)
    → AreDistinct ids
    → selected_in (if selected_in ids id then remove ids id else ids ++ id ∷ []) other
      ≡ (if text_eq id other then not (selected_in ids id) else selected_in ids other)
selected_in-toggled ids id other d = elim (Bool-cases (selected_in ids id)) [
  | inl e ↦ rw e (selected_in-remove ids id other d)
  | inr e ↦ rw e (selected_in-concat ids id other)
]

pub is_selected-toggled :
    (ids : List Text) (id other : Text)
    → AreDistinct ids
    → is_selected (some (toggled ids id)) other
      ≡ (if text_eq id other then not (is_selected (some ids) id) else is_selected (some ids) other)
is_selected-toggled ids id other d =
    is_selected_lem (toggled ids id) other
    ∙ ap (λ l. selected_in l other) (toggled-remove ids id)
    ∙ simp is_selected_lem (selected_in-toggled ids id other d)

-- A click with checkboxes turns the clicked row's selection around and leaves every other row's
-- alone, and no id is ever selected twice.
pub handle_click-toggles :
    (p : SelectionProps) (ids : List Text) (id other : Text)
    → p.disable_selection ≡ false
    → p.use_radio_buttons ≡ false
    → p.selected_ids ≡ some ids
    → AreDistinct ids
    → (new : List Text) × (handle_click p id ≡ some new)
      × AreDistinct new
      × (is_selected (some new) other ≡ (
          if text_eq id other
          then not (is_selected (some ids) id)
          else is_selected (some ids) other))
unfolding handle_click
handle_click-toggles p ids id other on boxes sel d = (
  toggled ids id,
  rw (on, boxes, sel),
  toggled-AreDistinct ids id d,
  is_selected-toggled ids id other d,
)
