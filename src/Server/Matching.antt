-- ===== src/Server/Matching.antt =====
-- frontend/server/server.ts: what express documents of the paths that a route takes: a star stands
-- for any text, a letter for itself in either case, and the other characters of these patterns for
-- themselves.
use metadata.Prelude.{
  ℕ, Bool, true, false, ◌&&◌, ◌||◌, [], ◌∷◌, ◌++◌, ◌+◌, ◌≡◌, if◌then◌else◌, leb, ◌==◌, arith, refl,
}
use metadata.Prelude.Texts.{Text}

abbrev between : ℕ → ℕ → ℕ → Bool
between a b c = leb a c && leb c b

abbrev lower : ℕ → ℕ
lower c = if between b'A' b'Z' c then c + 32 else c

-- Letters, digits, and `-`, `.`, `/`, `_`.
abbrev is_plain : ℕ → Bool
is_plain c = between b'-' b'9' c || (between b'A' b'Z' c || (between b'a' b'z' c || c == b'_'))

-- The plain start of a pattern differs from the path, by more than case.
unfoldable pub differ : Text → Text → Bool
differ [] path = false
differ (c ∷ pattern) [] = is_plain c
differ (c ∷ pattern) (d ∷ path) =
    let rest = differ pattern path in
    if is_plain c then (if lower c == lower d then rest else true) else false

-- A plain text and a path that are the same but for case.
unfoldable pub same_but_case : Text → Text → Bool
same_but_case [] [] = true
same_but_case (c ∷ p) (d ∷ q) = (is_plain c && lower c == lower d) && same_but_case p q
same_but_case _ _ = false

pub record IsExpress (matches : Text → Text → Bool) : Type 0 where
  pub star :
      (p q rest : Text) → same_but_case p q ≡ true → matches (p ++ b'*' ∷ []) (q ++ rest) ≡ true
  pub apart : (pattern path : Text) → differ pattern path ≡ true → matches pattern path ≡ false

-- A matcher for patterns whose star is their last character.
unfoldable pub glob : Text → Text → Bool
glob [] [] = true
glob [] (d ∷ path) = false
glob (c ∷ pattern) [] = c == b'*'
glob (c ∷ pattern) (d ∷ path) =
    let rest = glob pattern path in
    if c == b'*' then true else if lower c == lower d then rest else false

glob-star : (p q rest : Text) → same_but_case p q ≡ true → glob (p ++ b'*' ∷ []) (q ++ rest) ≡ true
unfolding glob same_but_case
glob-star [] [] [] h = refl
glob-star [] [] (d ∷ rest) h = refl
glob-star [] (d ∷ q) rest h = cc
glob-star (c ∷ p) [] rest h = cc
glob-star (c ∷ p) (d ∷ q) rest h = ground (arith, glob-star p q rest)

glob-apart : (pattern path : Text) → differ pattern path ≡ true → glob pattern path ≡ false
unfolding glob differ
glob-apart [] path h = cc
glob-apart (c ∷ pattern) [] h = ground arith
glob-apart (c ∷ pattern) (d ∷ path) h = ground (arith, glob-apart pattern path)

pub glob-IsExpress : IsExpress glob
glob-IsExpress = record { star = glob-star; apart = glob-apart }
