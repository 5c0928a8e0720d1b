-- ===== src/Widgets/Toolbar.antt =====
-- components/Toolbar.tsx and atoms/BusyButton.tsx: what the toolbar shows.
pub mod Hiding
use metadata.Prelude.{
  ℕ, Bool, true, false, not, ◌&&◌, ◌||◌, List, [], ◌∷◌, map, Option, none, some, if◌then◌else◌,
  length, ltb,
}
use metadata.Prelude.Texts.{Text, text, text_eq}
use metadata.Value.{is_empty}
use metadata.Shell.Host.{Breadcrumb}

pub record ActionConfig : Type 0 where
  pub busy : Bool
  pub disabled : Bool
  pub disabled_title : Option Text
  pub outlined : Bool
  pub primary : Bool
  pub title : Text
  pub tooltip : Text

-- `ToolbarActionMap`: the actions under their keys, in the order of `Object.keys`.
pub record ToolbarProps : Type 0 where
  pub actions : List (Text × ActionConfig)
  pub breadcrumbs : List Breadcrumb
  pub page_title : Option Text

-- `actions.length` is the action of that key, if there is one.
unfoldable pub has_action : Text → List (Text × ActionConfig) → Bool
has_action key [] = false
has_action key ((k, a) ∷ rest) = text_eq k key || has_action key rest

abbrev pub has_text : Option Text → Bool
has_text none = false
has_text (some t) = not (is_empty t)

pub record ActionView : Type 0 where
  pub tooltip : Text
  pub title : Text
  pub is_primary : Bool
  pub is_disabled : Bool
  pub has_spinner : Bool

abbrev pub disabled_tooltip : Option Text → Text → Text
disabled_tooltip none tooltip = tooltip
disabled_tooltip (some t) tooltip = if is_empty t then tooltip else t

-- The button of `BusyButton` under its tooltip; `is_primary` is its color.
unfoldable pub action_view : ActionConfig → ActionView
action_view a = record {
  tooltip = if a.disabled then disabled_tooltip a.disabled_title a.tooltip else a.tooltip;
  title = a.title;
  is_primary = a.outlined && not a.primary;
  is_disabled = a.busy || a.disabled;
  has_spinner = a.busy;
}

-- A breadcrumb, and whether an icon separates it from the one before.
abbrev pub CrumbView : Type 0
CrumbView = Breadcrumb × Bool

abbrev pub later_crumb : Breadcrumb → CrumbView
later_crumb c = (c, true)

abbrev pub crumb_views : List Breadcrumb → List CrumbView
crumb_views [] = []
crumb_views (c ∷ rest) = (c, false) ∷ map later_crumb rest

-- `back_button` says whether it is there and, if so, whether it is disabled.
pub record ToolbarView : Type 0 where
  pub crumbs : List CrumbView
  pub back_button : Option Bool
  pub page_title : Option Text
  pub actions : List ActionView

abbrev pub is_none_left {ℓ} : {A : Type ℓ} → List A → Bool
is_none_left [] = true
is_none_left (x ∷ xs) = false

-- The test at the start of `render`.
unfoldable pub is_hidden : ToolbarProps → Bool
unfolding has_action
is_hidden p =
    not (has_action (text "length") p.actions)
    && (is_none_left p.breadcrumbs && not (has_text p.page_title))

-- `history_length` is the length of the browser's history.
unfoldable pub view_of : ℕ → ToolbarProps → ToolbarView
unfolding action_view
view_of history_length p = record {
  crumbs = crumb_views p.breadcrumbs;
  back_button = if is_none_left p.breadcrumbs then none else some (ltb history_length 2);
  page_title = p.page_title;
  actions = map (λ a. action_view a.1) p.actions;
}

unfoldable pub render : ℕ → ToolbarProps → Option ToolbarView
unfolding is_hidden view_of
render history_length p = if is_hidden p then none else some (view_of history_length p)
