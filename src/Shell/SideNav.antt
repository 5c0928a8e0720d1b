-- ===== src/Shell/SideNav.antt =====
-- lib/LocalStorage.ts, and the state of pages/SideNav.tsx (components/SideNav.tsx has the same
-- handlers). The browser's storage holds a text or nothing under the one key that is used;
-- `getItem` returns null where it holds nothing.
pub mod Collapsing
use metadata.Prelude.{
  ℕ, Bool, true, false, not, List, [], ◌∷◌, Option, none, some, if◌then◌else◌, ltb,
}
use metadata.Prelude.Texts.{Text, text, text_eq, starts_with}
use metadata.Value.{Value, undefined, null, str}
use metadata.Shell.Links.{artifacts_page, artifact_prefix, execution_prefix}

abbrev pub Storage : Type 0
Storage = Option Text

abbrev pub get_item : Storage → Value
get_item none = null
get_item (some t) = str t

abbrev is_undefined : Value → Bool
is_undefined undefined = true
is_undefined _ = false

abbrev is_text : Value → Text → Bool
is_text (str s) t = text_eq s t
is_text _ t = false

unfoldable pub has_key : Storage → Bool
has_key storage = not (is_undefined (get_item storage))

unfoldable pub is_navbar_collapsed : Storage → Bool
is_navbar_collapsed storage = is_text (get_item storage) (text "true")

unfoldable pub save_navbar_collapsed : Bool → Storage
save_navbar_collapsed value = some (if value then text "true" else text "false")

pub record SideNavState : Type 0 where
  pub collapsed : Bool
  pub manual_collapse_state : Bool

-- The component, `_isMounted`, and the storage that it writes.
pub record SideNav : Type 0 where
  pub state : SideNavState
  pub is_mounted : Bool
  pub storage : Storage

unfoldable pub construct : Storage → SideNav
unfolding has_key is_navbar_collapsed
construct storage = record {
  state = record {
    collapsed = is_navbar_collapsed storage;
    manual_collapse_state = has_key storage;
  };
  is_mounted = true;
  storage = storage;
}

abbrev pub set_state_safe : SideNav → SideNavState → SideNav
set_state_safe n s = if n.is_mounted then record n { state = s } else n

-- `_toggleNavCollapsed` gives the value that it sets: the argument's, or the opposite of the state's.
pub toggle_nav_collapsed : SideNavState → Option Bool → Bool
toggle_nav_collapsed s none = not s.collapsed
toggle_nav_collapsed s (some should_collapse) = should_collapse

-- A click on the chevron. Both calls of `setState` read the state from before the click, since
-- React applies them when the handler is done; then the callback saves the new state.
unfoldable pub toggle_nav_clicked : SideNav → SideNav
unfolding toggle_nav_collapsed save_navbar_collapsed
toggle_nav_clicked n =
    let first = record n.state {
      collapsed = not n.state.collapsed;
      manual_collapse_state = true;
    } in
    let second = record first { collapsed = toggle_nav_collapsed n.state none } in
    if n.is_mounted
    then record n { state = second; storage = save_navbar_collapsed second.collapsed }
    else n

abbrev pub auto_collapse_width : ℕ
auto_collapse_width = 800

unfoldable pub maybe_resize : SideNav → ℕ → SideNav
unfolding toggle_nav_collapsed
maybe_resize n inner_width =
    if n.state.manual_collapse_state
    then n
    else set_state_safe n (record n.state {
      collapsed = toggle_nav_collapsed n.state (some (ltb inner_width auto_collapse_width));
    })

pub data NavEvent : Type 0 where
  clicked : NavEvent
  resized : ℕ → NavEvent
  unmounted : NavEvent

unfoldable pub handle : SideNav → NavEvent → SideNav
unfolding toggle_nav_clicked maybe_resize
handle n clicked = toggle_nav_clicked n
handle n (resized w) = maybe_resize n w
handle n unmounted = record n { is_mounted = false }

unfoldable pub run : SideNav → List NavEvent → SideNav
unfolding handle
run n [] = n
run n (e ∷ es) = run (handle n e) es

-- Which button is active and which indicator is shown, for the page's path.
pub record Highlight : Type 0 where
  pub artifacts_active : Bool
  pub artifacts_indicator : Bool
  pub executions_active : Bool
  pub executions_indicator : Bool

-- pages/SideNav.tsx, which the router uses.
unfoldable pub page_highlight : Text → Highlight
unfolding starts_with
page_highlight page = record {
  artifacts_active = starts_with page artifact_prefix;
  artifacts_indicator = starts_with page artifacts_page;
  executions_active = not (starts_with page artifact_prefix);
  executions_indicator = not (starts_with page artifact_prefix);
}

-- components/SideNav.tsx.
unfoldable pub component_highlight : Text → Highlight
unfolding starts_with
component_highlight page = record {
  artifacts_active = starts_with page artifact_prefix;
  artifacts_indicator = starts_with page artifact_prefix;
  executions_active = starts_with page execution_prefix;
  executions_indicator = starts_with page execution_prefix;
}
