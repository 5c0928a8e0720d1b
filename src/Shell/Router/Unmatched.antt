-- ===== src/Shell/Router/Unmatched.antt =====
-- What unknown locations show.
use metadata.Prelude.{
  Bool, true, false, not, List, [], ◌∷◌, Option, or_else, ◌≡◌, ◌≢◌, refl, All, Bool-cases, inl, inr,
}
use metadata.Prelude.Texts.{Text, text}
use metadata.Shell.Router.{RouteConfig, page_404, blank, default_configs, first_route, router}

module _ (matches : (path : Text) → (exact : Bool) → (location : Text) → Bool) where
  first_route-ne-404 :
      (rs : List RouteConfig) (location : Text) → first_route matches rs location ≢ page_404
  unfolding first_route
  first_route-ne-404 [] location = λ e. cc
  first_route-ne-404 (r ∷ rs) location =
      elim (Bool-cases (matches r.path (not r.not_exact) location)) [
        | inl m ↦ rw m (λ e. cc)
        | inr m ↦ rw m (first_route-ne-404 rs location)
      ]

  first_route-blank :
      (rs : List RouteConfig) (location : Text)
      → All (λ r. matches r.path (not r.not_exact) location ≡ false) rs
      → first_route matches rs location ≡ blank
  unfolding first_route
  first_route-blank [] location h = refl
  first_route-blank (r ∷ rs) location h = rw h.0 (first_route-blank rs location h.1)

  -- No location shows the 404 page.
  router-ne-404 :
      (configs : Option (List RouteConfig)) (location : Text)
      → router matches configs location ≢ page_404
  unfolding router
  router-ne-404 configs location = elim (Bool-cases (matches (text "/") true location)) [
    | inl m ↦ rw m (λ e. cc)
    | inr m ↦ rw m (first_route-ne-404 (or_else configs default_configs) location)
  ]

  -- A location other than the root that no route matches shows nothing.
  pub router-unknown :
      (configs : Option (List RouteConfig)) (location : Text)
      → matches (text "/") true location ≡ false
      → All
          (λ r. matches r.path (not r.not_exact) location ≡ false)
          (or_else configs default_configs)
      → router matches configs location ≡ blank
  unfolding router
  router-unknown configs location h k =
      rw h (first_route-blank (or_else configs default_configs) location k)
