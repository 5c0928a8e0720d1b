-- ===== src/Prelude/Numerals.antt =====
-- `String(n)` for a natural number: decimal digits as code units.
use metadata.Prelude.Basics.{
  ℕ, zero, suc, ◌+◌, ◌-◌, ◌*◌, ◌/◌, ◌%◌, ◌≤◌, ◌<◌, ◌≡◌, refl, inl, inr, [], ◌∷◌, ◌++◌, arith,
}
use metadata.Prelude.Tests.{ltb, if◌then◌else◌, Bool-cases}
use metadata.Prelude.Lists.{All}
use metadata.Prelude.Texts.{Text}

decimal_fuel : ℕ → ℕ → Text
decimal_fuel zero n = []
decimal_fuel (suc f) n =
    let more = decimal_fuel f (n / 10) ++ (48 + n % 10) ∷ [] in
    if ltb n 10 then (48 + n) ∷ [] else more

-- The number has fewer digits than its value plus one, so the fuel suffices.
unfoldable pub decimal : ℕ → Text
unfolding decimal_fuel
decimal n = decimal_fuel (suc n) n

-- The number that a run of digits spells, most significant first.
abbrev pub spelled : ℕ → Text → ℕ
spelled acc [] = acc
spelled acc (d ∷ ds) = spelled (acc * 10 + (d - 48)) ds

spelled-concat :
    (acc d : ℕ) (ds : Text) → spelled acc (ds ++ d ∷ []) ≡ spelled acc ds * 10 + (d - 48)
spelled-concat acc d [] = refl
spelled-concat acc d (e ∷ ds) = spelled-concat (acc * 10 + (e - 48)) d ds

spelled-decimal_fuel : (f n : ℕ) → n < f → spelled 0 (decimal_fuel f n) ≡ n
unfolding decimal_fuel
spelled-decimal_fuel zero n h = elim h [ ]
spelled-decimal_fuel (suc f) n h = elim (Bool-cases (ltb n 10)) [
  | inl e ↦ rw e (omega arith)
  | inr e ↦ rw (e, spelled-concat) (ground (arith, spelled-decimal_fuel f (n / 10)))
]

-- The digits spell the number again.
pub spelled-decimal : (n : ℕ) → spelled 0 (decimal n) ≡ n
unfolding decimal
spelled-decimal n = spelled-decimal_fuel (suc n) n (omega arith)

abbrev pub IsDigit : ℕ → Type 0
IsDigit d = (48 ≤ d) × (d ≤ 57)

All-concat : (ds : Text) {d : ℕ} → All IsDigit ds → IsDigit d → All IsDigit (ds ++ d ∷ [])
All-concat [] h k = (k, tt)
All-concat (e ∷ ds) (g, h) k = (g, All-concat ds h k)

decimal_fuel-IsDigit : (f n : ℕ) → All IsDigit (decimal_fuel f n)
unfolding decimal_fuel
decimal_fuel-IsDigit zero n = tt
decimal_fuel-IsDigit (suc f) n = elim (Bool-cases (ltb n 10)) [
  | inl e ↦ rw e ((omega arith, ground arith), tt)
  | inr e ↦
      rw e (All-concat (decimal_fuel f (n / 10)) (decimal_fuel-IsDigit f (n / 10)) (omega arith))
]

pub decimal-IsDigit : (n : ℕ) → All IsDigit (decimal n)
unfolding decimal
decimal-IsDigit n = decimal_fuel-IsDigit (suc n) n

-- A numeral has a digit.
pub decimal-full : (n : ℕ) → (d : ℕ) × (ds : Text) × (decimal n ≡ d ∷ ds)
unfolding decimal decimal_fuel
decimal-full n = elim (Bool-cases (ltb n 10)) [
  | inl e ↦ (48 + n, [], rw (e, decimal_fuel) refl)
  | inr e ↦
      let (d, ds, q) = head_of (decimal_fuel n (n / 10)) (48 + n % 10) in
      (d, ds, rw (e, decimal_fuel) q)
]
  where
    head_of : (s : Text) (c : ℕ) → (d : ℕ) × (ds : Text) × (s ++ c ∷ [] ≡ d ∷ ds)
    head_of [] c = (c, [], refl)
    head_of (b ∷ s) c = (b, s ++ c ∷ [], refl)
