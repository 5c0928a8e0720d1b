-- ===== src/Shell/SideNav/Collapsing.antt =====
-- What a session does to the side navigation, and what the two versions highlight.
use metadata.Prelude.{
  ℕ, Bool, true, false, not, List, [], ◌∷◌, ◌++◌, none, some, if◌then◌else◌, ◌≡◌, ◌↔◌, ◌⊎◌, inl,
  inr, refl, arith, Bool-cases, ◌∙◌, ap, sym,
}
use metadata.Prelude.Texts.{Text, text, starts_with, starts_with-split}
use metadata.Shell.Links.{artifact_prefix, execution_prefix}
use metadata.Shell.SideNav.{
  Storage, is_navbar_collapsed, save_navbar_collapsed, SideNav, construct, toggle_nav_clicked,
  maybe_resize, NavEvent, clicked, resized, unmounted, run, page_highlight, component_highlight,
}

-- The collapsed state after the clicks that a mounted component gets.
abbrev pub after_clicks : Bool → Bool → List NavEvent → Bool
after_clicks mounted c [] = c
after_clicks mounted c (clicked ∷ es) = after_clicks mounted (if mounted then not c else c) es
after_clicks mounted c (resized w ∷ es) = after_clicks mounted c es
after_clicks mounted c (unmounted ∷ es) = after_clicks false c es

clicked-state :
    (n : SideNav)
    → n.state.manual_collapse_state ≡ true
    → ((toggle_nav_clicked n).state.manual_collapse_state ≡ true)
      × ((toggle_nav_clicked n).is_mounted ≡ n.is_mounted)
      × ((toggle_nav_clicked n).state.collapsed
          ≡ (if n.is_mounted then not n.state.collapsed else n.state.collapsed))
unfolding toggle_nav_clicked
clicked-state n h = ground arith

resized-same : (n : SideNav) (w : ℕ) → n.state.manual_collapse_state ≡ true → maybe_resize n w ≡ n
unfolding maybe_resize
resized-same n w h = ground arith

run-after_clicks :
    (n : SideNav) (es : List NavEvent)
    → n.state.manual_collapse_state ≡ true
    → (run n es).state.collapsed ≡ after_clicks n.is_mounted n.state.collapsed es
unfolding run
run-after_clicks n [] h = refl
run-after_clicks n (clicked ∷ es) h =
    let (manual, mounted, collapsed) = clicked-state n h in
    run-after_clicks (toggle_nav_clicked n) es manual
    ∙ ap (λ b. after_clicks b (toggle_nav_clicked n).state.collapsed es) mounted
    ∙ ap (λ b. after_clicks n.is_mounted b es) collapsed
run-after_clicks n (resized w ∷ es) h =
    ap (λ m. (run m es).state.collapsed) (resized-same n w h) ∙ run-after_clicks n es h
run-after_clicks n (unmounted ∷ es) h = run-after_clicks (record n { is_mounted = false }) es h

-- Whatever the storage holds, no window size ever collapses or expands the navigation: the state
-- is the stored one, turned around by each click while the component is mounted.
pub run-construct :
    (storage : Storage) (es : List NavEvent)
    → (run (construct storage) es).state.collapsed
      ≡ after_clicks true (is_navbar_collapsed storage) es
unfolding construct
run-construct storage es = run-after_clicks (construct storage) es (manual storage)
  where
    manual : (s : Storage) → (construct s).state.manual_collapse_state ≡ true
    manual none = refl
    manual (some t) = refl

-- A click on a mounted navigation turns it around and saves it, so that the navigation built from
-- the storage afterwards is in the state that is shown.
construct-toggle :
    (n : SideNav)
    → n.is_mounted ≡ true
    → ((toggle_nav_clicked n).state.collapsed ≡ not n.state.collapsed)
      × ((construct (toggle_nav_clicked n).storage).state.collapsed
          ≡ (toggle_nav_clicked n).state.collapsed)
unfolding toggle_nav_clicked construct
construct-toggle n m = rw m (refl, turned n.state.collapsed)
  where
    turned : (b : Bool) → is_navbar_collapsed (save_navbar_collapsed (not b)) ≡ not b
    turned true = refl
    turned false = refl

one_prefix :
    (page : Text)
    → starts_with page artifact_prefix ≡ true
    → starts_with page execution_prefix ≡ false
one_prefix page a = elim (Bool-cases (starts_with page execution_prefix)) [
  | inl x ↦
      let (r, p) = starts_with-split page artifact_prefix a in
      let (q, e) = starts_with-split page execution_prefix x in absurd (differ r q (sym p ∙ e))
  | inr x ↦ x
]
  where
    differ : (r q : Text) → artifact_prefix ++ r ≡ execution_prefix ++ q → ⊥
    differ r q e = ground arith

-- The two versions of the navigation agree on whether the executions button is active exactly for the paths that start with one of the two prefixes.
pub highlight-agree :
    (page : Text)
    → (((component_highlight page).executions_active ≡ (page_highlight page).executions_active)
        ↔ ((starts_with page artifact_prefix ≡ true) ⊎ (starts_with page execution_prefix ≡ true)))
unfolding component_highlight page_highlight
highlight-agree page = (
  λ e. elim (Bool-cases (starts_with page artifact_prefix)) [
    | inl a ↦ inl a
    | inr a ↦ inr (e ∙ ap not a)
  ],
  λ h. elim h [
    | inl a ↦ one_prefix page a ∙ sym (ap not a)
    | inr x ↦ elim (Bool-cases (starts_with page artifact_prefix)) [
      | inl a ↦ cc (x, one_prefix page a)
      | inr a ↦ x ∙ sym (ap not a)
    ]
  ],
)

-- On the details page of any artifact the page's navigation has the artifacts button active and
-- shows no indicator at all, where the component's version shows the artifacts indicator.
pub artifact_details-indicator :
    (rest : Text)
    → ((page_highlight (text "/artifact_types/" ++ rest)).artifacts_active ≡ true)
      × ((page_highlight (text "/artifact_types/" ++ rest)).artifacts_indicator ≡ false)
      × ((page_highlight (text "/artifact_types/" ++ rest)).executions_indicator ≡ false)
      × ((component_highlight (text "/artifact_types/" ++ rest)).artifacts_indicator ≡ true)
unfolding page_highlight component_highlight
artifact_details-indicator rest = (refl, refl, refl, refl)
