-- ===== src/Table/Selection/Sets.antt =====
-- The selection of the table as a set: lists of ids that hold each id once, without their order.
use mathlib.Core.Quot
use mathlib.Core.Quot.{Quot, Quot-set}
use metadata.Prelude.{
  ◌≡◌, refl, sym, ◌∙◌, Bool, false, not, List, some, if◌then◌else◌, Bool-cases, inl, inr, arith,
}
use metadata.Prelude.Texts.{Text, text_eq, text_eq_iff, text_eq_refl}
use metadata.Table.Selection.{toggled, is_selected, SelectionProps, handle_click}
use metadata.Table.Selection.Toggling.{AreDistinct, toggled-AreDistinct, is_selected-toggled}

-- What `selectedIds` may hold.
abbrev pub Ids : Type 0
Ids = (ids : List Text) × AreDistinct ids

-- The same ids are selected.
abbrev pub Same : Ids → Ids → Type 0
Same l m = (id : Text) → is_selected (some l.0) id ≡ is_selected (some m.0) id

abbrev pub Selection : Type 0
Selection = Quot Same

abbrev pub clicked : Text → Ids → Ids
clicked id l = (toggled l.0 id, toggled-AreDistinct l.0 id l.1)

pub clicked-Same : (id : Text) (l m : Ids) → Same l m → Same (clicked id l) (clicked id m)
clicked-Same id l m h other =
    is_selected-toggled l.0 id other l.1
    ∙ (λ k. if text_eq id other then not (h id k) else h other k)
    ∙ sym (is_selected-toggled m.0 id other m.1)

unfoldable pub click : Text → Selection → Selection
click id =
    Quot.lift Quot-set (λ l. Quot.mk (clicked id l)) (λ l m h. Quot.sound (clicked-Same id l m h))

-- A click, on what is selected.
abbrev flip : (Text → Bool) → Text → Text → Bool
flip f a other = if text_eq a other then not (f a) else f other

flip-twice : (f : Text → Bool) (a other : Text) → flip (flip f a) a other ≡ f other
flip-twice f a other = elim (Bool-cases (text_eq a other)) [
  | inl e ↦ rw (e, text_eq_refl a, (text_eq_iff a other).0 e) (ground arith)
  | inr e ↦ rw e refl
]

flip_comm : (f : Text → Bool) (a b other : Text) → flip (flip f b) a other ≡ flip (flip f a) b other
flip_comm f a b other = elim (Bool-cases (text_eq a b)) [
  | inl e ↦ let p = (text_eq_iff a b).0 e in λ k. flip (flip f (sym p k)) (p k) other
  | inr e ↦
      ground (arith, text_eq_iff a other, text_eq_iff b other, text_eq_iff a b, text_eq_iff b a)
]

selected-twice :
    (a b other : Text) (l : Ids)
    → is_selected (some (clicked a (clicked b l)).0) other
      ≡ flip (flip (λ x. is_selected (some l.0) x) b) a other
selected-twice a b other l = is_selected-toggled (clicked b l).0 a other (clicked b l).1 ∙ (λ k.
    if text_eq a other
    then not (is_selected-toggled l.0 b a l.1 k)
    else is_selected-toggled l.0 b other l.1 k)

twice-Same : (id : Text) (l : Ids) → Same (clicked id (clicked id l)) l
twice-Same id l other =
    selected-twice id id other l ∙ flip-twice (λ x. is_selected (some l.0) x) id other

commute-Same : (a b : Text) (l : Ids) → Same (clicked a (clicked b l)) (clicked b (clicked a l))
commute-Same a b l other =
    selected-twice a b other l
    ∙ flip_comm (λ x. is_selected (some l.0) x) a b other
    ∙ sym (selected-twice b a other l)

click-click_other : (a b : Text) (s : Selection) → click a (click b s) ≡ click b (click a s)
unfolding click
click-click_other a b = Quot.ind (λ s. Quot-set _ _) (λ l. Quot.sound (commute-Same a b l))

click-click : (a : Text) (s : Selection) → click a (click a s) ≡ s
unfolding click
click-click a = Quot.ind (λ s. Quot-set _ _) (λ l. Quot.sound (twice-Same a l))

-- What a click on a row with checkboxes makes of the selected ids, as a set, is `click`: clicks on
-- two rows may be done in either order, and a second click on a row undoes the first.
pub click_comm :
    (p : SelectionProps) (a b : Text) (l : Ids)
    → p.disable_selection ≡ false
    → p.use_radio_buttons ≡ false
    → p.selected_ids ≡ some l.0
    → (handle_click p a ≡ some (clicked a l).0)
      × (click a (Quot.mk l) ≡ Quot.mk (clicked a l))
      × (click a (click b (Quot.mk l)) ≡ click b (click a (Quot.mk l)))
      × (click a (click a (Quot.mk l)) ≡ Quot.mk l)
unfolding handle_click click
click_comm p a b l on boxes sel =
    (rw (on, boxes, sel) refl, refl, click-click_other a b (Quot.mk l), click-click a (Quot.mk l))
