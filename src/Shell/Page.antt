-- ===== src/Shell/Page.antt =====
-- pages/Page.tsx: what the base class of pages does to the shell.
use metadata.Prelude.{Bool, true, [], ◌∷◌, ◌++◌, Option, none, some, if◌then◌else◌}
use metadata.Prelude.Texts.{Text, text}
use metadata.Value.{is_empty}
use metadata.Shell.Host.{
  Host, BannerProps, no_banner, Mode, error, update_banner, update_dialog, update_toolbar,
  ToolbarProps,
}
use metadata.Utils.Messages.{Failure, error_to_message}

-- The constructor: the initial toolbar.
unfoldable pub open_page : Host → ToolbarProps → Host
unfolding update_toolbar
open_page h t = update_toolbar h (record {
  actions = some t.actions;
  breadcrumbs = some t.breadcrumbs;
  page_title = t.page_title;
})

unfoldable pub clear_banner : Host → Host
unfolding update_banner
clear_banner h = update_banner h no_banner

abbrev pub mode_or_error : Option Mode → Mode
mode_or_error none = error
mode_or_error (some m) = m

-- `showPageError`, when the message of the error has arrived.
unfoldable pub page_error_banner : Text → Failure → Option Mode → BannerProps
unfolding error_to_message
page_error_banner message failure mode =
    let error_message = error_to_message failure in
    record {
      additional_info = if is_empty error_message then none else some error_message;
      message = some (
          message
          ++ (if is_empty error_message then [] else text " Click Details for more information."));
      mode = some (mode_or_error mode);
      refresh = true;
    }

unfoldable pub show_page_error : Host → Text → Failure → Option Mode → Host
unfolding page_error_banner update_banner
show_page_error h message failure mode = update_banner h (page_error_banner message failure mode)

unfoldable pub show_error_dialog : Host → Text → Text → Host
unfolding update_dialog
show_error_dialog h title content = update_dialog h (record {
  buttons = record { on_click = none; text = text "Dismiss" } ∷ [];
  content = some content;
  on_close = none;
  is_open = none;
  title = some title;
})

unfoldable pub component_will_unmount : Host → Host
unfolding clear_banner
component_will_unmount h = clear_banner h

-- `componentDidMount`, which the details pages replace by their own.
unfoldable pub component_did_mount : Host → Host
unfolding clear_banner
component_did_mount h = clear_banner h

-- A page that has its own state, with `_isMounted`.
pub record PageInstance {ℓ} (S : Type ℓ) : Type ℓ where
  pub state : S
  pub is_mounted : Bool

-- `setStateSafe`.
unfoldable pub set_state_safe {ℓ} : {S : Type ℓ} → PageInstance S → S → PageInstance S
set_state_safe p s = if p.is_mounted then record p { state = s } else p
