-- ===== src/Service/Ids/Unnamed.antt =====
-- Names without the collection of types in them.
use metadata.Prelude.{
  ℕ, ◌≡◌, ◌≢◌, ◌<◌, refl, true, false, [], ◌∷◌, ◌++◌, none, arith, Bool-cases, inl, inr, ◌==◌, All,
}
use metadata.Prelude.Texts.{Text, text, starts_with, includes}
use metadata.Prelude.Numerals.{decimal, IsDigit, decimal-IsDigit}
use metadata.Prelude.Results.{err}
use metadata.Service.{Kind, artifact, execution, types_collection, word, pos, malformed_name}
use metadata.Service.Ids.{find_submatch, middle, id_in, name_of}
use metadata.Service.Ids.Named.{without-All}

-- A text that does not contain the start has no fit.
find_submatch-none : (start m s : Text) → includes s start ≡ false → find_submatch start m s ≡ none
unfolding find_submatch includes
find_submatch-none start m [] h = rw (h, find_submatch) refl
find_submatch-none start m (c ∷ s) h =
    let here : starts_with (c ∷ s) start ≡ false = ground arith in
    let rest = find_submatch-none start m s (ground arith) in rw (here, find_submatch) rest

-- A text without slashes and a slash that a text starts with end at its first slash.
starts_with-cut :
    (q u w : Text)
    → All (λ c. c ≢ b'/') w
    → starts_with (q ++ (b'/' ∷ u)) (w ++ (b'/' ∷ [])) ≡ true
    → starts_with (q ++ (b'/' ∷ [])) (w ++ (b'/' ∷ [])) ≡ true
unfolding starts_with
starts_with-cut [] u [] h e = refl
starts_with-cut [] u (d ∷ w) h e = let k = h.0 in ground arith
starts_with-cut (c ∷ q) u [] h e = ground arith
starts_with-cut (c ∷ q) u (d ∷ w) h e =
    let same : (c == d) ≡ true = ground arith in rw same (starts_with-cut q u w h.1 (ground arith))

includes-cut :
    (p u w : Text)
    → All (λ c. c ≢ b'/') w
    → includes (p ++ (b'/' ∷ [])) (w ++ (b'/' ∷ [])) ≡ false
    → includes (b'/' ∷ u) (w ++ (b'/' ∷ [])) ≡ false
    → includes (p ++ (b'/' ∷ u)) (w ++ (b'/' ∷ [])) ≡ false
unfolding includes
includes-cut [] u w h e f = f
includes-cut (c ∷ p) u w h e f =
    let rest = includes-cut p u w h (ground arith) f in
    let cut = starts_with-cut (c ∷ p) u w h in
    elim (Bool-cases (starts_with (c ∷ p ++ (b'/' ∷ u)) (w ++ (b'/' ∷ [])))) [
      | inl l ↦ absurd (no (cut l) e)
      | inr l ↦ rw (l, rest) refl
    ]
  where
    no :
        starts_with (c ∷ p ++ (b'/' ∷ [])) (w ++ (b'/' ∷ [])) ≡ true
        → includes (c ∷ p ++ (b'/' ∷ [])) (w ++ (b'/' ∷ [])) ≡ false
        → ⊥
    no a b = ground arith

includes-digits : (c : ℕ) (w ds : Text) → 57 < c → All IsDigit ds → includes ds (c ∷ w) ≡ false
unfolding includes starts_with
includes-digits c w [] big h = refl
includes-digits c w (d ∷ ds) big h =
    let (low, high) = h.0 in
    let ne : (d == c) ≡ false = ground arith in rw (ne, includes-digits c w ds big h.1) refl

starts_with-nil : (s : Text) → starts_with s [] ≡ true
unfolding starts_with
starts_with-nil [] = refl
starts_with-nil (c ∷ s) = refl

starts_with-more : (p q u : Text) → starts_with p q ≡ true → starts_with (p ++ u) q ≡ true
unfolding starts_with
starts_with-more p [] u h = starts_with-nil (p ++ u)
starts_with-more [] (d ∷ q) u h = cc
starts_with-more (c ∷ p) (d ∷ q) u h =
    let same : (c == d) ≡ true = ground arith in rw same (starts_with-more p q u (ground arith))

starts_with-includes : (s q : Text) → includes s q ≡ false → starts_with s q ≡ false
unfolding includes
starts_with-includes [] q h = h
starts_with-includes (c ∷ s) q h = ground arith

pub starts_with-bare : (p q u : Text) → includes (p ++ u) q ≡ false → starts_with p q ≡ false
starts_with-bare p q u h = elim (Bool-cases (starts_with p q)) [
  | inl l ↦ cc (starts_with-more p q u l, starts_with-includes (p ++ u) q h)
  | inr l ↦ l
]

includes-word :
    (k : Kind) (ds : Text) → All IsDigit ds → includes (middle k ++ ds) (types_collection k) ≡ false
unfolding includes starts_with
includes-word artifact ds h = includes-digits b'a' (text "rtifact_types/") ds (omega arith) h
includes-word execution ds h = includes-digits b'e' (text "xecution_types/") ds (omega arith) h

-- Under a parent without the collection the name of the new resource is malformed.
pub id_in-malformed :
    (k : Kind) (parent : Text) (n : ℕ)
    → includes (parent ++ (b'/' ∷ [])) (types_collection k) ≡ false
    → id_in k (name_of k parent (pos n)) ≡ err (malformed_name (name_of k parent (pos n)))
unfolding id_in
id_in-malformed k parent n h =
    rw
      (
        find_submatch-none (types_collection k) (middle k) (name_of k parent (pos n)) (whole k h),
        id_in,
      )
      refl
  where
    whole :
        (k : Kind)
        → includes (parent ++ (b'/' ∷ [])) (types_collection k) ≡ false
        → includes (name_of k parent (pos n)) (types_collection k) ≡ false
    whole artifact h =
        includes-cut parent (word artifact ++ (b'/' ∷ decimal n)) (text "artifact_types")
          (without-All b'/' (text "artifact_types") refl) h
          (includes-word artifact (decimal n) (decimal-IsDigit n))
    whole execution h =
        includes-cut parent (word execution ++ (b'/' ∷ decimal n)) (text "execution_types")
          (without-All b'/' (text "execution_types") refl) h
          (includes-word execution (decimal n) (decimal-IsDigit n))
