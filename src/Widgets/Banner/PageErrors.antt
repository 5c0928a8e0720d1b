-- ===== src/Widgets/Banner/PageErrors.antt =====
-- The banner of a page error, as the pages make it and the banner shows it.
use metadata.Prelude.{◌≡◌, refl, true, not, Option, Bool-cases, inl, inr}
use metadata.Prelude.Texts.{Text}
use metadata.Value.{is_empty}
use metadata.Shell.Host.{Mode}
use metadata.Shell.Page.{page_error_banner}
use metadata.Utils.Messages.{Failure, error_to_message}
use metadata.Widgets.Banner.{BannerState, render}

-- The banner of a page error always offers a refresh, and it has a button for details exactly when
-- the error has a message.
pub render-page_error :
    (message : Text) (failure : Failure) (mode : Option Mode) (s : BannerState)
    → ((render (page_error_banner message failure mode) s).refresh_button ≡ true)
      × ((render (page_error_banner message failure mode) s).details_button
          ≡ not (is_empty (error_to_message failure)))
unfolding render page_error_banner
render-page_error message failure mode s = (
  refl,
  elim (Bool-cases (is_empty (error_to_message failure))) [
    | inl e ↦ rw e refl
    | inr e ↦ rw e (rw e refl)
  ],
)
