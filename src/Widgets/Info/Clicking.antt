-- ===== src/Widgets/Info/Clicking.antt =====
-- Which properties are shown, and which uris are links.
use metadata.Prelude.{
  ◌≡◌, refl, Bool, true, false, not, ◌&&◌, ◌||◌, Option, none, some, if◌then◌else◌, inl, inr, ◌⊎◌,
}
use metadata.Prelude.Texts.{Text, text, starts_with}
use metadata.Value.{is_empty}
use metadata.Widgets.Info.{clickable_url}

some-if :
    (b : Bool) (uri url : Text)
    → (if b then some uri else none) ≡ some url
    → (b ≡ true) × (uri ≡ url)
some-if true uri url h = (refl, cc)
some-if false uri url h = cc

scheme-cases :
    (empty http https : Bool)
    → (not empty && (http || https)) ≡ true
    → (http ≡ true) ⊎ (https ≡ true)
scheme-cases false true https h = inl refl
scheme-cases false false true h = inr refl
scheme-cases false false false h = cc
scheme-cases true http https h = cc

-- A uri is a link only to itself, and only where it has the scheme http or https.
pub clickable_url-scheme :
    (uri : Option Text) (url : Text)
    → clickable_url uri ≡ some url
    → (uri ≡ some url)
      × ((starts_with url (text "http:") ≡ true) ⊎ (starts_with url (text "https:") ≡ true))
unfolding clickable_url
clickable_url-scheme none url h = cc
clickable_url-scheme (some uri) url h =
    let (test, same) = some-if _ uri url h in
    (
      (λ k. some (same k)),
      rw (← same) (
          scheme-cases (is_empty uri) (starts_with uri (text "http:"))
            (starts_with uri (text "https:")) test),
    )
