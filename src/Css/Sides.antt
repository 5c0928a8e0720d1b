-- ===== src/Css/Sides.antt =====
-- Which sides get a padding.
use metadata.Prelude.{ℕ, ◌≡◌, refl, ◌↔◌, Bool, true, false, Option, some}
use metadata.Prelude.Texts.{Text, text, Contains, includes, includes_iff}
use metadata.Value.{number_or, text_or}
use metadata.Css.{PaddingRules, padding_internal, base_spacing, when}

abbrev pub Side : Type 0
Side = PaddingRules → Option ℕ

when-some : (b : Bool) (n : ℕ) → (when b n ≡ some n) ↔ (b ≡ true)
when-some true n = (λ _. refl, λ _. refl)
when-some false n = (λ e. cc, λ e. cc)

side_iff : (d letter : Text) (n : ℕ) → (when (includes d letter) n ≡ some n) ↔ Contains d letter
side_iff d letter n = (
  λ e. (includes_iff d letter).0 ((when-some (includes d letter) n).0 e),
  λ h. (when-some (includes d letter) n).1 ((includes_iff d letter).1 h),
)

-- Each side gets the padding exactly when its letter stands somewhere among the directions, in any
-- order and however often; none or an empty text of directions stands for all four, and no number or
-- the number 0 for the base spacing.
pub padding_internal-sides :
    (units : Option ℕ) (directions : Option Text)
    → let rules = padding_internal units directions in
      let n = number_or units base_spacing in
      let d = text_or directions (text "blrt") in
      ((rules.padding_bottom ≡ some n) ↔ Contains d (text "b"))
      × ((rules.padding_left ≡ some n) ↔ Contains d (text "l"))
      × ((rules.padding_right ≡ some n) ↔ Contains d (text "r"))
      × ((rules.padding_top ≡ some n) ↔ Contains d (text "t"))
unfolding padding_internal
padding_internal-sides units directions =
    let n = number_or units base_spacing in
    let d = text_or directions (text "blrt") in
    (
      side_iff d (text "b") n,
      side_iff d (text "l") n,
      side_iff d (text "r") n,
      side_iff d (text "t") n,
    )
