-- ===== src/Shell/Router.antt =====
-- components/Router.tsx: which page a location shows. `matches` is react-router's test of a location
-- against a path, with its flag for an exact match; a `Switch` takes the first route that matches.
pub mod Unmatched
use metadata.Prelude.{
  Bool, true, false, not, List, [], ◌∷◌, Option, none, some, if◌then◌else◌, or_else,
}
use metadata.Prelude.Texts.{Text, text}
use metadata.Shell.Links.{
  artifacts_page, artifact_details_page, executions_page, execution_details_page,
}

pub data PageComponent : Type 0 where
  artifact_list artifact_details execution_list execution_details : PageComponent

pub record RouteConfig : Type 0 where
  pub path : Text
  pub component : PageComponent
  pub not_exact : Bool

abbrev pub default_route : Text
default_route = artifacts_page

abbrev pub default_configs : List RouteConfig
default_configs =
    record { path = artifacts_page; component = artifact_list; not_exact = false }
    ∷ record { path = artifact_details_page; component = artifact_details; not_exact = true }
    ∷ record { path = executions_page; component = execution_list; not_exact = false }
    ∷ record { path = execution_details_page; component = execution_details; not_exact = false }
    ∷ []

pub data Shown : Type 0 where
  redirected : Text → Shown
  page : PageComponent → Shown
  page_404 : Shown
  blank : Shown

module _ (matches : (path : Text) → (exact : Bool) → (location : Text) → Bool) where
  -- The inner `Switch` of `RoutedPage.render`.
  unfoldable pub routed_page : Option RouteConfig → Text → Shown
  routed_page none location = blank
  routed_page (some r) location =
      if matches r.path (not r.not_exact) location then page r.component else page_404

  pub first_route : List RouteConfig → Text → Shown
  unfolding routed_page
  first_route [] location = routed_page none location
  first_route (r ∷ rs) location =
      let later = first_route rs location in
      if matches r.path (not r.not_exact) location then routed_page (some r) location else later

  unfoldable pub router : Option (List RouteConfig) → Text → Shown
  unfolding first_route
  router configs location =
      if matches (text "/") true location
      then redirected default_route
      else first_route (or_else configs default_configs) location
