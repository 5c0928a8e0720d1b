-- ===== src/Tests/Shell.antt =====
-- The shell and the smaller components on small inputs.
use metadata.Prelude.{ℕ, ◌≡◌, ◌≢◌, refl, Bool, true, false, [], ◌∷◌, none, some, arith}
use metadata.Prelude.Texts.{Text, text}
use metadata.Prelude.Numerals.{decimal}
use metadata.Shell.Host.{
  Host, DialogProps, SnackbarProps, update_dialog, handle_dialog_closed, update_snackbar,
  handle_snackbar_close, render,
}
use metadata.Shell.Links.{
  artifact_link, execution_link, row_id, artifact_details, build_resource_details_page_route,
}
use metadata.Shell.Links.Targets.{links-row_id, artifact_path, execution_path}
use metadata.Shell.SideNav.{
  NavEvent, clicked, resized, run, is_navbar_collapsed, toggle_nav_clicked, page_highlight,
  component_highlight,
}
use metadata.Shell.SideNav.Collapsing.{run-construct, after_clicks}
use metadata.Widgets.Toolbar.{ToolbarProps, ActionConfig}
use metadata.Shell.Host
use metadata.Shell.SideNav
use metadata.Widgets.Toolbar

abbrev host : Host
host = Host.construct

abbrev question : DialogProps
question = record {
  buttons = record { on_click = some 1; text = text "Yes" } ∷ [];
  content = some (text "Really?");
  on_close = some 2;
  is_open = none;
  title = none;
}

abbrev note : SnackbarProps
note = record { auto_hide_duration = none; message = some (text "Saved"); is_open = true }

m-plain : ◌≢◌ {A = ℕ} b'm' b':'
m-plain = ground arith

m-plain_dollar : ◌≢◌ {A = ℕ} b'm' b'$'
m-plain_dollar = ground arith

links-row_id_example :
    (artifact_link (row_id (text "m") 7) ≡ artifact_path (text "m") (decimal 7))
    × (execution_link (row_id (text "m") 7) ≡ execution_path (text "m") (decimal 7))
    × (artifact_details (text "m") 7 ≡ artifact_path (text "m") (decimal 7))
    × (build_resource_details_page_route false 7 (text "m") ≡ execution_path (text "m") (decimal 7))
    × (build_resource_details_page_route true 7 (text "m") ≡ artifact_path (text "m") (decimal 7))
links-row_id_example = links-row_id (text "m") 7 ((m-plain, m-plain_dollar), tt)

run-construct_example :
    (run (SideNav.construct none) (resized 300 ∷ clicked ∷ [])).state.collapsed
    ≡ after_clicks true (is_navbar_collapsed none) (resized 300 ∷ clicked ∷ [])
run-construct_example = run-construct none (resized 300 ∷ clicked ∷ [])

new_nav-is_mounted : (SideNav.construct none).is_mounted ≡ true
unfolding SideNav.construct
new_nav-is_mounted = refl

abbrev never : Text → Bool → Text → Bool
never path exact location = false

abbrev actions_only : ToolbarProps
actions_only = record {
  actions =
      (
        text "refresh",
        record {
          busy = false;
          disabled = false;
          disabled_title = none;
          outlined = false;
          primary = false;
          title = text "Refresh";
          tooltip = text "Refresh";
        },
      )
      ∷ [];
  breadcrumbs = [];
  page_title = none;
}

keyless : Toolbar.has_action (text "length") actions_only.actions ≡ false
unfolding Toolbar.has_action
keyless = refl
