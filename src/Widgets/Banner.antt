-- ===== src/Widgets/Banner.antt =====
-- components/Banner.tsx: the banner and its dialog of details.
pub mod PageErrors
use metadata.Prelude.{Bool, true, false, not, ◌&&◌, Option, none, some, if◌then◌else◌}
use metadata.Prelude.Texts.{Text, text}
use metadata.Value.{is_empty}
use metadata.Shell.Host.{BannerProps, Mode, error, warning}

pub record BannerState : Type 0 where
  pub dialog_open : Bool

unfoldable pub construct : BannerState
construct = record { dialog_open = false }

unfoldable pub show_additional_info : BannerState → BannerState
show_additional_info s = record s { dialog_open = true }

unfoldable pub dialog_closed : BannerState → BannerState
dialog_closed s = record s { dialog_open = false }

abbrev pub has_text : Option Text → Bool
has_text none = false
has_text (some t) = not (is_empty t)

abbrev pub dialog_title : Option Mode → Text
dialog_title none = text "An error occurred"
dialog_title (some error) = text "An error occurred"
dialog_title (some warning) = text "Warning"

abbrev pub shown_mode : Option Mode → Mode
shown_mode none = error
shown_mode (some m) = m

-- The dialog is there only with details; it says whether it is open.
pub record BannerView : Type 0 where
  pub mode : Mode
  pub message : Option Text
  pub details_button : Bool
  pub refresh_button : Bool
  pub dialog : Option (Text × Bool)

unfoldable pub render : BannerProps → BannerState → BannerView
render p s = record {
  mode = shown_mode p.mode;
  message = p.message;
  details_button = has_text p.additional_info;
  refresh_button = p.refresh;
  dialog = if has_text p.additional_info then some (dialog_title p.mode, s.dialog_open) else none;
}
