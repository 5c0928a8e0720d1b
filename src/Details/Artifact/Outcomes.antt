-- ===== src/Details/Artifact/Outcomes.antt =====
-- What a load of the artifact page leaves.
use metadata.Prelude.{◌≡◌, refl, List, [], ◌∷◌, some, ◌⊎◌, inl, inr}
use metadata.Prelude.Texts.{Text}
use metadata.Resources.{Resource}
use metadata.Shell.Host.{error, update_toolbar, update_banner}
use metadata.Shell.Page.{show_page_error, page_error_banner}
use metadata.Details.Artifact.{
  ArtifactDetails, Reply, answered, thrown, load, show_artifact, page_error, title_of,
}

-- A load of the artifact page either got exactly one artifact, which is then shown under its title
-- with the banner left as it was, or it shows an error and leaves the artifact and the toolbar.
load-outcome :
    (full_type_name id : Text) (p : ArtifactDetails) (r : Reply (List Resource))
    → ((a : Resource) × (r ≡ answered (a ∷ []))
        × ((load full_type_name id p r).artifact ≡ some a)
        × ((load full_type_name id p r).host.toolbar_props.page_title ≡ some (title_of a))
        × ((load full_type_name id p r).host.banner_props ≡ p.host.banner_props))
      ⊎ (((load full_type_name id p r).artifact ≡ p.artifact)
          × ((load full_type_name id p r).host.toolbar_props ≡ p.host.toolbar_props)
          × ((load full_type_name id p r).host.banner_props.mode ≡ some error))
unfolding load show_artifact page_error update_toolbar show_page_error page_error_banner
    update_banner
load-outcome full_type_name id p (answered []) = inr (refl, refl, refl)
load-outcome full_type_name id p (answered (a ∷ [])) = inl (a, refl, refl, refl, refl)
load-outcome full_type_name id p (answered (a ∷ b ∷ rest)) = inr (refl, refl, refl)
load-outcome full_type_name id p (thrown e) = inr (refl, refl, refl)
