-- ===== src/Details/View/Switching.antt =====
-- The tabs of the artifact page: a click, the location that it leads to, and what is shown there.
use metadata.Prelude.{ℕ, zero, suc, ◌≡◌, ◌<◌, refl, Bool, true, false, Option, none, some, arith}
use metadata.Prelude.Texts.{Text}
use metadata.Resources.{Resource}
use metadata.Widgets.Tabs.{click, selected_index}
use metadata.Details.Artifact.{ArtifactDetails, proper_type_name, switch_tab}
use metadata.Details.View.{
  tab_names, lineage_path, ArtifactView, overview, lineage, blank, shown_artifact, render_artifact,
}

-- What react-router documents of the page's own path and url, and of the ones below them.
pub record IsRouted (matches : (path : Text) → (exact : Bool) → (location : Text) → Bool)
    (path url : Text) : Type 0 where
  pub own : matches path true url ≡ true
  pub below : matches (lineage_path path) true (lineage_path url) ≡ true
  pub apart : matches path true (lineage_path url) ≡ false

-- What is shown after a click: what `go` leads to, if the click switches.
abbrev pub after_click : (ℕ → ArtifactView → ArtifactView) → Option ℕ → ArtifactView → ArtifactView
after_click go none v = v
after_click go (some i) v = go i v

module _ (matches : (path : Text) → (exact : Bool) → (location : Text) → Bool)
    (title_case : Text → Text) where
  abbrev pub visit :
      (path full_type_name : Text) → ArtifactDetails → Option Text → ArtifactView → ArtifactView
  visit path full_type_name p none v = v
  visit path full_type_name p (some location) v =
      render_artifact matches title_case path location full_type_name p

  -- The view of a tab.
  abbrev pub view_at : (full_type_name : Text) → Resource → ℕ → ArtifactView
  view_at full_type_name a zero = overview 0 (proper_type_name title_case full_type_name) a
  view_at full_type_name a (suc zero) = lineage 1 a
  view_at full_type_name a _ = blank

  at_own :
      (path url full_type_name : Text) (p : ArtifactDetails) (a : Resource)
      → IsRouted matches path url
      → p.artifact ≡ some a
      → render_artifact matches title_case path url full_type_name p ≡ view_at full_type_name a 0
  unfolding render_artifact shown_artifact
  at_own path url full_type_name p a routed loaded =
      rw (render_artifact, loaded, shown_artifact, routed.own) refl

  at_lineage :
      (path url full_type_name : Text) (p : ArtifactDetails) (a : Resource)
      → IsRouted matches path url
      → p.artifact ≡ some a
      → render_artifact matches title_case path (lineage_path url) full_type_name p
        ≡ view_at full_type_name a 1
  unfolding render_artifact shown_artifact
  at_lineage path url full_type_name p a routed loaded =
      rw (render_artifact, loaded, shown_artifact, routed.apart, routed.below) refl

  abbrev pub clicked :
      (path url full_type_name : Text)
      → ArtifactDetails
      → (selected i : ℕ) → ArtifactView
      → ArtifactView
  clicked path url full_type_name p selected i v =
      after_click (λ j w. visit path full_type_name p (switch_tab url j) w)
        (click tab_names selected i) v

  -- Where the artifact has been loaded, and one of the two tabs is shown, a click on a tab leads to a
  -- location where the page shows that tab's content and marks it as the selected one; a click on the
  -- tab that is shown changes nothing.
  pub click-shows :
      (path url full_type_name : Text) (p : ArtifactDetails) (a : Resource) (selected i : ℕ)
      → IsRouted matches path url
      → p.artifact ≡ some a
      → selected < 2
      → i < 2
      → clicked path url full_type_name p selected i (view_at full_type_name a selected)
        ≡ view_at full_type_name a i
  unfolding click selected_index switch_tab
  click-shows path url full_type_name p a zero zero routed loaded h k = refl
  click-shows path url full_type_name p a zero (suc zero) routed loaded h k =
      at_lineage path url full_type_name p a routed loaded
  click-shows path url full_type_name p a (suc zero) zero routed loaded h k =
      at_own path url full_type_name p a routed loaded
  click-shows path url full_type_name p a (suc zero) (suc zero) routed loaded h k = refl
  click-shows path url full_type_name p a selected (suc (suc i)) routed loaded h k =
      absurd (omega arith)
  click-shows path url full_type_name p a (suc (suc selected)) i routed loaded h k =
      absurd (omega arith)
