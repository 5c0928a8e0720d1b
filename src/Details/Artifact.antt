-- ===== src/Details/Artifact.antt =====
-- pages/ArtifactDetails.tsx: the page's state, its titles, `load` and `switchTab`. The answer of
-- `getArtifactsByID` is an argument, and `title_case` is `titleCase` of @kubeflow/frontend.
pub mod Outcomes
use metadata.Prelude.{
  ℕ, zero, suc, Bool, true, false, List, [], ◌∷◌, ◌++◌, Option, none, some, if◌then◌else◌, ◌==◌,
}
use metadata.Prelude.Texts.{Text, text}
use metadata.Prelude.Numerals.{decimal}
use metadata.Value.{Value, truthy, ◌|||◌}
use metadata.Resources.{Resource, name, version}
use metadata.Utils.Messages.{Thrown, shown, service_error_to_string, other}
use metadata.Shell.Host.{Host, ToolbarProps, update_toolbar}
use metadata.Shell.Links.{artifacts_page}
use metadata.Shell.Page.{show_page_error}

-- The last part of the type's name between slashes.
pub last_part : Text → Text → Text
last_part part [] = part
last_part part (c ∷ s) =
    let after_slash = last_part [] s in
    let in_part = last_part (part ++ c ∷ []) s in if c == b'/' then after_slash else in_part

unfoldable pub proper_type_name : (Text → Text) → Text → Text
unfolding last_part
proper_type_name title_case full_type_name = title_case (last_part [] full_type_name)

unfoldable pub initial_toolbar : (Text → Text) → Text → Text → ToolbarProps
unfolding proper_type_name
initial_toolbar title_case full_type_name id = record {
  actions = [];
  breadcrumbs = record { display_name = text "Artifacts"; href = artifacts_page } ∷ [];
  page_title =
      some (proper_type_name title_case full_type_name ++ (text " " ++ (id ++ text " details")));
}

pub record ArtifactDetails : Type 0 where
  pub artifact : Option Resource
  pub host : Host

pub data Reply {ℓ} (A : Type ℓ) : Type ℓ where
  answered : A → Reply A
  thrown : Thrown → Reply A

abbrev pub text_of : Value → Text
text_of v = if truthy v then shown v else []

unfoldable pub title_of : Resource → Text
title_of a =
    text_of (a.property name false ||| a.property name true)
    ++ (let v = a.property version false in
        if truthy v then text " (version: " ++ (shown v ++ text ")") else [])

unfoldable pub page_error : ArtifactDetails → Text → ArtifactDetails
page_error p message = record p { host = show_page_error p.host message (other none) none }

unfoldable pub not_identified : Text → Text → Text
not_identified full_type_name id =
    text "No " ++ (full_type_name ++ (text " identified by id: " ++ id))

unfoldable pub show_artifact : ArtifactDetails → Resource → ArtifactDetails
unfolding title_of
show_artifact p a = record {
  artifact = some a;
  host =
      update_toolbar p.host
        (record { actions = none; breadcrumbs = none; page_title = some (title_of a) });
}

unfoldable pub load : Text → Text → ArtifactDetails → Reply (List Resource) → ArtifactDetails
load full_type_name id p (answered []) = page_error p (not_identified full_type_name id)
load full_type_name id p (answered (a ∷ [])) = show_artifact p a
load full_type_name id p (answered (a ∷ b ∷ rest)) =
    page_error p (text "Found multiple artifacts with ID: " ++ id)
load full_type_name id p (thrown e) = page_error p (service_error_to_string e)

-- Where `switchTab` goes; a tab that is not listed is only logged.
unfoldable pub switch_tab : Text → ℕ → Option Text
switch_tab url zero = some url
switch_tab url (suc zero) = some (url ++ text "/lineage")
switch_tab url _ = none
