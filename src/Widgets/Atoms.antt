-- ===== src/Widgets/Atoms.antt =====
-- atoms/Separator.tsx and atoms/Input.tsx: the sizes that they are given. `BusyButton` is with the
-- toolbar.
use metadata.Prelude.{ℕ, Bool, Option, none, some, if◌then◌else◌, or_else, ◌==◌}
use metadata.Prelude.Texts.{Text, text}
use metadata.Value.{is_empty, number_or}

pub data Orientation : Type 0 where
  horizontal vertical : Orientation

pub data SeparatorStyle : Type 0 where
  beside : (display : Text) → (min_width width : ℕ) → SeparatorStyle
  between : (display : Text) → (flex_shrink height min_height : ℕ) → SeparatorStyle

unfoldable pub style : Orientation → ℕ → SeparatorStyle
style horizontal units = beside (text "inline-block") units units
style vertical units = between (text "block") 0 units units

-- A separator whose units are none or 0 is ten pixels wide or high.
unfoldable pub separator : Option Orientation → Option ℕ → SeparatorStyle
unfolding style
separator orientation units = style (or_else orientation horizontal) (number_or units 10)

-- A size in css: a number of pixels or a text.
pub data Size : Type 0 where
  pixels : ℕ → Size
  css : Text → Size

abbrev pub size_or : Option Size → Size → Size
size_or none d = d
size_or (some (pixels n)) d = if n == 0 then d else pixels n
size_or (some (css s)) d = if is_empty s then d else css s

pub record InputStyle : Type 0 where
  pub height : Size
  pub max_width : Size
  pub width : Size

unfoldable pub input_style :
    (multiline : Bool) → (height max_width : Option Size) → (width : Option ℕ) → InputStyle
input_style multiline height max_width width = record {
  height = if multiline then css (text "auto") else size_or height (pixels 40);
  max_width = size_or max_width (pixels 600);
  width = elim width [
    | none ↦ css (text "100%")
    | some n ↦ if n == 0 then css (text "100%") else pixels n
  ];
}
