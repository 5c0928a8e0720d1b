-- ===== src/Css.antt =====
-- frontend/src/Css.tsx: the functions that compute spacing. A number that is 0 counts as none.
pub mod Sides
use metadata.Prelude.{ℕ, ◌+◌, ◌*◌, Bool, List, [], ◌∷◌, Option, none, some, if◌then◌else◌, ◌==◌}
use metadata.Prelude.Texts.{Text, text, includes}
use metadata.Value.{number_or, text_or}

abbrev pub base_spacing : ℕ
base_spacing = 24

-- `spacing.units`.
unfoldable pub spacing_units : ℕ → ℕ
spacing_units unit = base_spacing + unit * 4

-- The css properties that `_paddingInternal` writes.
pub record PaddingRules : Type 0 where
  pub padding_bottom : Option ℕ
  pub padding_left : Option ℕ
  pub padding_right : Option ℕ
  pub padding_top : Option ℕ

abbrev pub when : Bool → ℕ → Option ℕ
when b n = if b then some n else none

unfoldable pub padding_internal : Option ℕ → Option Text → PaddingRules
padding_internal units directions =
    let n = number_or units base_spacing in
    let d = text_or directions (text "blrt") in
    record {
      padding_bottom = when (includes d (text "b")) n;
      padding_left = when (includes d (text "l")) n;
      padding_right = when (includes d (text "r")) n;
      padding_top = when (includes d (text "t")) n;
    }
