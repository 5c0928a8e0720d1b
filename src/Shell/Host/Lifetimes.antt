-- ===== src/Shell/Host/Lifetimes.antt =====
-- Dialogs and snackbars over time.
use metadata.Prelude.{ℕ, true, false, [], ◌∷◌, none, some, ◌≡◌, refl}
use metadata.Shell.Host.{
  Host, DialogProps, SnackbarProps, update_dialog, handle_dialog_closed, update_snackbar,
  handle_snackbar_close, render,
}

-- A dialog that a page passes without `open` is shown. Closing it by a button hides it and calls
-- the button's callback and then the dialog's own, each once.
dialog-open-close :
    (h : Host) (d : DialogProps) (on_click on_close : ℕ)
    → d.is_open ≡ none
    → d.on_close ≡ some on_close
    → let shown = update_dialog h d in
      let after = handle_dialog_closed shown (some on_click) in
      ((render shown).dialog_open ≡ true)
      × ((render shown).dialog_buttons ≡ d.buttons)
      × ((render after.0).dialog_open ≡ false)
      × (after.1 ≡ on_click ∷ on_close ∷ [])
unfolding render update_dialog handle_dialog_closed
dialog-open-close h d on_click on_close o c = (rw o, refl, refl, rw c)

-- Until a snackbar is closed, one without a duration of its own is hidden after the duration of
-- the one before; once any snackbar has been closed, one without a duration is never hidden.
pub snackbar-duration :
    (h : Host) (p q : SnackbarProps)
    → p.auto_hide_duration ≡ none
    → ((render (update_snackbar h p)).snackbar_duration ≡ h.snackbar_props.auto_hide_duration)
      × ((render
            (update_snackbar (handle_snackbar_close (update_snackbar h q)) p)).snackbar_duration
          ≡ none)
unfolding render update_snackbar handle_snackbar_close
snackbar-duration h p q e = (rw e, rw e)
