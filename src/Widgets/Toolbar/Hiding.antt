-- ===== src/Widgets/Toolbar/Hiding.antt =====
-- When the toolbar is shown.
use metadata.Prelude.{
  ℕ, ◌≡◌, refl, ap, suc, true, false, List, [], ◌∷◌, map, none, some, Bool-cases, inl, inr, length,
}
use metadata.Prelude.Texts.{text}
use metadata.Widgets.Toolbar.{
  ToolbarProps, ToolbarView, has_action, has_text, is_hidden, is_none_left, render, view_of,
}

-- A toolbar without breadcrumbs and title is hidden whatever actions it has, unless one of them has
-- the key `length`.
pub render-hidden :
    (history_length : ℕ) (p : ToolbarProps)
    → has_action (text "length") p.actions ≡ false
    → p.breadcrumbs ≡ []
    → has_text p.page_title ≡ false
    → render history_length p ≡ none
unfolding render is_hidden
render-hidden history_length p keyless crumbs title = rw (keyless, crumbs, title) refl

length-map {ℓ κ} :
    {A : Type ℓ} {B : Type κ} (f : A → B) (xs : List A) → length (map f xs) ≡ length xs
length-map f [] = refl
length-map f (x ∷ xs) = ap suc (length-map f xs)

is_hidden-titled : (p : ToolbarProps) → has_text p.page_title ≡ true → is_hidden p ≡ false
unfolding is_hidden
is_hidden-titled p title = elim (Bool-cases (has_action (text "length") p.actions)) [
  | inl e ↦ rw e refl
  | inr e ↦ elim (Bool-cases (is_none_left p.breadcrumbs)) [
    | inl f ↦ rw e (rw f (rw title refl))
    | inr f ↦ rw e (rw f refl)
  ]
]

-- A toolbar with a title is shown, and it has a button for each of the actions.
pub render-titled :
    (history_length : ℕ) (p : ToolbarProps)
    → has_text p.page_title ≡ true
    → (v : ToolbarView) × (render history_length p ≡ some v)
      × (v.page_title ≡ p.page_title)
      × (length v.actions ≡ length p.actions)
unfolding render view_of
render-titled history_length p title =
    (view_of history_length p, rw (is_hidden-titled p title) refl, refl, length-map _ p.actions)
