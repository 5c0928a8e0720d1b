-- ===== src/Shell/Host.antt =====
-- components/Router.tsx, class RoutedPage: the state around a page, and the callbacks that a page
-- is given. `setState` in an event handler takes effect after the handler, so `this.state` in it is
-- the state before.
pub mod Lifetimes
use metadata.Prelude.{
  ℕ, Bool, true, false, not, ◌||◌, List, [], ◌∷◌, Option, none, some, if◌then◌else◌, ◌==◌, or_else,
}
use metadata.Prelude.Texts.{Text}

pub data Mode : Type 0 where
  error warning : Mode

-- `refresh` says that a callback is there.
pub record BannerProps : Type 0 where
  pub additional_info : Option Text
  pub message : Option Text
  pub mode : Option Mode
  pub refresh : Bool

abbrev pub no_banner : BannerProps
no_banner = record { additional_info = none; message = none; mode = none; refresh = false }

-- A callback is known by a number.
pub record DialogButton : Type 0 where
  pub on_click : Option ℕ
  pub text : Text

pub record DialogProps : Type 0 where
  pub buttons : List DialogButton
  pub content : Option Text
  pub on_close : Option ℕ
  pub is_open : Option Bool
  pub title : Option Text

abbrev pub closed_dialog : DialogProps
closed_dialog = record {
  buttons = [];
  content = none;
  on_close = none;
  is_open = some false;
  title = none;
}

pub record SnackbarProps : Type 0 where
  pub auto_hide_duration : Option ℕ
  pub message : Option Text
  pub is_open : Bool

pub record Breadcrumb : Type 0 where
  pub display_name : Text
  pub href : Text

pub record ToolbarProps : Type 0 where
  pub actions : List Text
  pub breadcrumbs : List Breadcrumb
  pub page_title : Option Text

-- `Partial<ToolbarProps>`.
pub record ToolbarUpdate : Type 0 where
  pub actions : Option (List Text)
  pub breadcrumbs : Option (List Breadcrumb)
  pub page_title : Option Text

pub record Host : Type 0 where
  pub banner_props : BannerProps
  pub dialog_props : DialogProps
  pub snackbar_props : SnackbarProps
  pub toolbar_props : ToolbarProps

unfoldable pub construct : Host
construct = record {
  banner_props = no_banner;
  dialog_props = closed_dialog;
  snackbar_props = record { auto_hide_duration = some 5000; message = none; is_open = false };
  toolbar_props = record {
    actions = [];
    breadcrumbs = record { display_name = []; href = [] } ∷ [];
    page_title = none;
  };
}

unfoldable pub update_dialog : Host → DialogProps → Host
update_dialog h d = record h { dialog_props = record d { is_open = some (or_else d.is_open true) } }

abbrev called : Option ℕ → List ℕ → List ℕ
called none rest = rest
called (some f) rest = f ∷ rest

-- The new state, and the callbacks in the order in which they are called.
unfoldable pub handle_dialog_closed : Host → Option ℕ → Host × List ℕ
handle_dialog_closed h on_click =
    (record h { dialog_props = closed_dialog }, called on_click (called h.dialog_props.on_close []))

unfoldable pub update_toolbar : Host → ToolbarUpdate → Host
update_toolbar h u = record h {
  toolbar_props = record {
    actions = or_else u.actions h.toolbar_props.actions;
    breadcrumbs = or_else u.breadcrumbs h.toolbar_props.breadcrumbs;
    page_title = elim u.page_title [ none ↦ h.toolbar_props.page_title | some t ↦ some t ];
  };
}

unfoldable pub update_banner : Host → BannerProps → Host
update_banner h b = record h { banner_props = b }

-- `a || b` on durations.
abbrev pub duration_or : Option ℕ → Option ℕ → Option ℕ
duration_or none d = d
duration_or (some n) d = if n == 0 then d else some n

unfoldable pub update_snackbar : Host → SnackbarProps → Host
update_snackbar h p = record h {
  snackbar_props = record p {
    auto_hide_duration = duration_or p.auto_hide_duration h.snackbar_props.auto_hide_duration;
  };
}

unfoldable pub handle_snackbar_close : Host → Host
handle_snackbar_close h = record h {
  snackbar_props = record { auto_hide_duration = none; message = some []; is_open = false };
}

-- What `render` shows around the page.
pub record HostView : Type 0 where
  pub banner : Option BannerProps
  pub dialog_open : Bool
  pub dialog_buttons : List DialogButton
  pub snackbar_open : Bool
  pub snackbar_duration : Option ℕ

abbrev has_text : Option Text → Bool
has_text none = false
has_text (some []) = false
has_text (some (c ∷ s)) = true

unfoldable pub render : Host → HostView
render h = record {
  banner = if has_text h.banner_props.message then some h.banner_props else none;
  dialog_open = or_else h.dialog_props.is_open true;
  dialog_buttons = h.dialog_props.buttons;
  snackbar_open = h.snackbar_props.is_open;
  snackbar_duration = h.snackbar_props.auto_hide_duration;
}
