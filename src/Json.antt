-- ===== src/Json.antt =====
-- What `JSON.parse` returns, as far as the frontend looks into it. Numbers are natural.
use metadata.Prelude.{ℕ, Bool, true, false, not, Option, none, some, if◌then◌else◌, ◌==◌, [], ◌∷◌}
use metadata.Prelude.Texts.{Text, text, text_eq}
use metadata.Value.{is_empty}

mutual
  pub data Json : Type 0 where
    null : Json
    bool : Bool → Json
    num : ℕ → Json
    str : Text → Json
    arr : Items → Json
    obj : Fields → Json

  pub data Items : Type 0 where
    nil : Items
    cons : Json → Items → Items

  pub data Fields : Type 0 where
    end : Fields
    field : Text → Json → Fields → Fields

-- The property of an object: `JSON.parse` lets the last of equal keys win.
abbrev pub find : Text → Fields → Option Json
find k end = none
find k (field j v fs) = elim (find k fs) [
  | some w ↦ some w
  | none ↦ if text_eq j k then some v else none
]

-- Truth of a value that may be undefined.
abbrev pub is_true : Option Json → Bool
is_true none = false
is_true (some null) = false
is_true (some (bool b)) = b
is_true (some (num n)) = not (n == 0)
is_true (some (str s)) = not (is_empty s)
is_true (some _) = true

-- Reading a property that only an object of its own has; nothing outside for a `TypeError`.
abbrev pub member : Text → Option Json → Option (Option Json)
member k none = none
member k (some null) = none
member k (some (obj fs)) = some (find k fs)
member k (some _) = some none

-- `v.length === 0` for a value that is true.
abbrev pub has_length_zero : Json → Bool
has_length_zero (arr nil) = true
has_length_zero (str s) = is_empty s
has_length_zero (obj fs) = elim (find (text "length") fs) [ some (num n) ↦ n == 0 | _ ↦ false ]
has_length_zero _ = false

-- `v[0]`.
abbrev pub at_zero : Json → Option Json
at_zero (arr (cons v vs)) = some v
at_zero (str (c ∷ s)) = some (str (c ∷ []))
at_zero (obj fs) = find (text "0") fs
at_zero _ = none
