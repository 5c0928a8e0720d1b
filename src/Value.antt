-- ===== src/Value.antt =====
-- The values that a table cell (`any`) holds in the frontend, and what JavaScript does with them:
-- truth, `a || b`, `a === b`, `a < b` and the string that `join` writes. Numbers are natural.
use metadata.Prelude.{
  ℕ, ◌≡◌, refl, ◌↔◌, Bool, true, false, not, Option, none, some, [], ◌∷◌, arith, ◌==◌, ltb,
  if◌then◌else◌,
}
use metadata.Prelude.Texts.{Text, text_eq, text_eq_iff, text_lt}
use metadata.Prelude.Numerals.{decimal}

pub data Value : Type 0 where
  undefined null : Value
  num : ℕ → Value
  str : Text → Value

abbrev pub empty_string : Value
empty_string = str []

abbrev pub is_empty : Text → Bool
is_empty [] = true
is_empty (c ∷ s) = false

-- `s || d` and `n || d` for a text and a number that may be missing.
abbrev pub text_or : Option Text → Text → Text
text_or none d = d
text_or (some s) d = if is_empty s then d else s

abbrev pub number_or : Option ℕ → ℕ → ℕ
number_or none d = d
number_or (some n) d = if n == 0 then d else n

abbrev pub truthy : Value → Bool
truthy undefined = false
truthy null = false
truthy (num n) = not (n == 0)
truthy (str s) = not (is_empty s)

-- `a || b`.
infixr 30 ◌|||◌
abbrev pub ◌|||◌ : Value → Value → Value
a ||| b = if truthy a then a else b

-- The key comparison of a `Map`.
abbrev pub value_eq : Value → Value → Bool
value_eq undefined undefined = true
value_eq null null = true
value_eq (num m) (num n) = m == n
value_eq (str s) (str t) = text_eq s t
value_eq _ _ = false

pub value_eq_iff : (a b : Value) → (value_eq a b ≡ true) ↔ (a ≡ b)
value_eq_iff undefined undefined = (λ _. refl, λ _. refl)
value_eq_iff null null = (λ _. refl, λ _. refl)
value_eq_iff (num m) (num n) = ground arith
value_eq_iff (str s) (str t) = ground (arith, text_eq_iff s t)
value_eq_iff _ _ = (λ e. cc, λ e. cc)

pub value_eq_refl : (a : Value) → value_eq a a ≡ true
value_eq_refl a = (value_eq_iff a a).1 refl

-- What `join` and template literals write for a value; `join` leaves out what is missing.
pub joined : Value → Text
joined undefined = []
joined null = []
joined (num n) = decimal n
joined (str s) = s

-- `toNumber` is the conversion of a text to a number, with nothing for NaN.
module _ (to_number : Text → Option ℕ) where
  abbrev number_of : Value → Option ℕ
  number_of undefined = none
  number_of null = some 0
  number_of (num n) = some n
  number_of (str s) = to_number s

  abbrev below : Option ℕ → Option ℕ → Bool
  below (some m) (some n) = ltb m n
  below _ _ = false

  -- `a < b`: texts by code units, all else as numbers.
  unfoldable pub value_lt : Value → Value → Bool
  value_lt (str s) (str t) = text_lt s t
  value_lt a b = below (number_of a) (number_of b)
