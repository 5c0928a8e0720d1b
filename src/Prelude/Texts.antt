-- ===== src/Prelude/Texts.antt =====
-- JavaScript strings as lists of UTF-16 code units, with the string methods that the frontend
-- calls. `text "…"` writes an ASCII literal.
use Prim.Native.Char.{code}
use Prim.Native.Nat.{ℕ}
use Prim.Native.String.{String}
use mathlib.Core.Path.{◌≡◌, refl, ap}
use mathlib.Core.Logic.{◌↔◌, inl, inr}
use mathlib.Core.Bool.{Bool, true, false, ◌&&◌, ◌||◌}
use mathlib.Core.List.{List, [], ◌∷◌, ◌++◌}
use native.Mathlib.Omega.{arith}
use metadata.Prelude.Tests.{◌==◌, ltb, if◌then◌else◌, Bool-cases}

abbrev pub Text : Type 0
Text = List ℕ

abbrev pub text : String → Text
text String.[] = []
text (String.◌∷◌ c s) = code c ∷ text s

-- `a === b` on strings.
abbrev pub text_eq : Text → Text → Bool
text_eq [] [] = true
text_eq (a ∷ s) (b ∷ t) = (a == b) && text_eq s t
text_eq _ _ = false

-- `a < b` on strings: by code units, a proper prefix first.
unfoldable pub text_lt : Text → Text → Bool
text_lt s [] = false
text_lt [] (b ∷ t) = true
text_lt (a ∷ s) (b ∷ t) = let rest = text_lt s t in if a == b then rest else ltb a b

-- `s.startsWith(p)`.
unfoldable pub starts_with : Text → Text → Bool
starts_with s [] = true
starts_with [] (b ∷ p) = false
starts_with (a ∷ s) (b ∷ p) = (a == b) && starts_with s p

-- `s.indexOf(p) > -1`.
unfoldable pub includes : Text → Text → Bool
unfolding starts_with
includes [] p = starts_with [] p
includes (a ∷ s) p = starts_with (a ∷ s) p || includes s p

-- `s.endsWith(p)`.
unfoldable pub ends_with : Text → Text → Bool
ends_with [] p = text_eq [] p
ends_with (a ∷ s) p = text_eq (a ∷ s) p || ends_with s p

pub text_eq_iff : (s t : Text) → (text_eq s t ≡ true) ↔ (s ≡ t)
text_eq_iff [] [] = (λ _. refl, λ _. refl)
text_eq_iff [] (b ∷ t) = (λ e. cc, λ e. cc)
text_eq_iff (a ∷ s) [] = (λ e. cc, λ e. cc)
text_eq_iff (a ∷ s) (b ∷ t) = ground (arith, text_eq_iff s t)

pub text_eq_refl : (s : Text) → text_eq s s ≡ true
text_eq_refl s = (text_eq_iff s s).1 refl

pub starts_with-append : (p s : Text) → starts_with (p ++ s) p ≡ true
unfolding starts_with
starts_with-append [] s = refl
starts_with-append (a ∷ p) s = ground (arith, starts_with-append p s)

pub starts_with-split : (s p : Text) → starts_with s p ≡ true → (rest : Text) × (s ≡ p ++ rest)
unfolding starts_with
starts_with-split s [] h = (s, refl)
starts_with-split [] (b ∷ p) h = cc
starts_with-split (a ∷ s) (b ∷ p) h =
    let (rest, e) = starts_with-split s p (ground arith) in (rest, ground arith)

-- `s` contains `p`, written out.
abbrev pub Contains : Text → Text → Type 0
Contains s p = (before : Text) × (after : Text) × (s ≡ before ++ (p ++ after))

pub includes_sound : (s p : Text) → includes s p ≡ true → Contains s p
unfolding includes
includes_sound [] p h = let (rest, e) = starts_with-split [] p h in ([], rest, e)
includes_sound (a ∷ s) p h = elim (Bool-cases (starts_with (a ∷ s) p)) [
  | inl e ↦ let (rest, q) = starts_with-split (a ∷ s) p e in ([], rest, q)
  | inr e ↦
      let (before, after, q) = includes_sound s p (rw (e) at h) in (a ∷ before, after, ap (a ∷◌) q)
]

includes_after : (s : Text) (a : ℕ) (p : Text) → includes s p ≡ true → includes (a ∷ s) p ≡ true
unfolding includes
includes_after s a p h = ground arith

pub includes_complete : (before after p : Text) → includes (before ++ (p ++ after)) p ≡ true
unfolding includes
includes_complete [] after p = at_start (p ++ after) p (starts_with-append p after)
  where
    at_start : (s p : Text) → starts_with s p ≡ true → includes s p ≡ true
    at_start [] p h = h
    at_start (a ∷ s) p h = rw h
includes_complete (a ∷ before) after p =
    includes_after (before ++ (p ++ after)) a p (includes_complete before after p)

-- `includes` decides containment.
pub includes_iff : (s p : Text) → (includes s p ≡ true) ↔ Contains s p
includes_iff s p =
    (includes_sound s p, λ (before, after, e). rw e (includes_complete before after p))

pub ends_with-append : (s p : Text) → ends_with (s ++ p) p ≡ true
unfolding ends_with
ends_with-append [] [] = refl
ends_with-append [] (b ∷ p) = rw text_eq_refl
ends_with-append (a ∷ s) p = rw (ends_with-append s p) (or-true _)
  where
    or-true : (b : Bool) → (b || true) ≡ true
    or-true true = refl
    or-true false = refl
