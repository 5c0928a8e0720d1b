-- ===== src/Prelude/Replace.antt =====
-- `s.replace(pattern, replacement)` and `s.split(c)` with strings: the first occurrence is
-- replaced, and `$$`, `$&`, `` $` `` and `$'` in the replacement are expanded.
use metadata.Prelude.Basics.{
  ℕ, ◌≡◌, refl, sym, ap, ◌≢◌, ◌∙◌, inl, inr, [], ◌∷◌, ◌++◌, Bool, true, false, append_assoc,
  append-nil, arith,
}
use metadata.Prelude.Tests.{◌==◌, if◌then◌else◌, Bool-cases}
use metadata.Prelude.Lists.{All, length, drop}
use metadata.Prelude.Texts.{Text, starts_with, starts_with-append}

-- What one code unit of the replacement gives, after a pending `$` or not.
emit : (matched before after : Text) → Bool → ℕ → Text
emit matched before after false c = if c == b'$' then [] else c ∷ []
emit matched before after true c =
    if c == b'$'
    then b'$' ∷ []
    else if c == b'&'
    then matched
    else if c == 96
    then before
    else if c == 39
    then after
    else b'$' ∷ c ∷ []

pending : Bool → ℕ → Bool
pending false c = c == b'$'
pending true c = false

expand_from : (matched before after : Text) → Bool → Text → Text
expand_from matched before after false [] = []
expand_from matched before after true [] = b'$' ∷ []
expand_from matched before after p (c ∷ r) =
    emit matched before after p c ++ expand_from matched before after (pending p c) r

-- The loop of `replace` over the positions of the text; `before` is what precedes.
replace_at : Text → Text → Text → Text → Text
replace_at before [] pattern r =
    if starts_with [] pattern then expand_from pattern before [] false r else []
replace_at before (c ∷ s) pattern r =
    let after = drop (length pattern) (c ∷ s) in
    let later = c ∷ replace_at (before ++ c ∷ []) s pattern r in
    if starts_with (c ∷ s) pattern then expand_from pattern before after false r ++ after else later

unfoldable pub replace : Text → Text → Text → Text
unfolding replace_at expand_from emit pending starts_with
replace s pattern r = replace_at [] s pattern r

-- A replacement with no `$` stands for itself.
expand_from-plain :
    (matched before after r : Text)
    → All (λ c. c ≢ b'$') r
    → expand_from matched before after false r ≡ r
unfolding expand_from emit pending
expand_from-plain matched before after [] h = refl
expand_from-plain matched before after (c ∷ r) h =
    ground (arith, h.0, expand_from-plain matched before after r h.1)

-- Text that does not contain the pattern's first code unit is passed over.
replace_at-skip :
    (before u v : Text) (c : ℕ) (p r : Text)
    → All (λ a. a ≢ c) u
    → replace_at before (u ++ v) (c ∷ p) r ≡ u ++ replace_at (before ++ u) v (c ∷ p) r
unfolding replace_at starts_with
replace_at-skip before [] v c p r h = rw append-nil
replace_at-skip before (a ∷ u) v c p r h = elim (Bool-cases (a == c)) [
  | inl e ↦ absurd (h.0 (ground arith))
  | inr e ↦ rw e (
      ap (a ∷◌) (
        replace_at-skip (before ++ a ∷ []) u v c p r h.1
        ∙ ap (λ b. u ++ replace_at b v (c ∷ p) r) (append_assoc before (a ∷ []) u)))
]

replace_at-here :
    (before p v r : Text)
    → All (λ c. c ≢ b'$') r
    → starts_with (p ++ v) p ≡ true
    → p ≢ []
    → replace_at before (p ++ v) p r ≡ r ++ drop (length p) (p ++ v)
unfolding replace_at
replace_at-here before [] v r h e ne = absurd (ne refl)
replace_at-here before (c ∷ p) v r h e ne =
    rw e (ap (λ x. x ++ drop (length p) (p ++ v)) (expand_from-plain (c ∷ p) before _ r h))

drop-append : (p v : Text) → drop (length p) (p ++ v) ≡ v
drop-append [] v = refl
drop-append (c ∷ p) v = drop-append p v

-- A pattern that starts with `c`, after text without `c`, is replaced by plain text as it stands.
pub replace-here :
    (u : Text) (c : ℕ) (p v r : Text)
    → All (λ a. a ≢ c) u
    → All (λ a. a ≢ b'$') r
    → replace (u ++ ((c ∷ p) ++ v)) (c ∷ p) r ≡ u ++ (r ++ v)
unfolding replace
replace-here u c p v r h k =
    replace_at-skip [] u ((c ∷ p) ++ v) c p r h
    ∙ ap (λ x. u ++ x) (replace_at-here u (c ∷ p) v r k (starts_with-append (c ∷ p) v) (λ e. cc))
    ∙ ap (λ x. u ++ (r ++ x)) (drop-append (c ∷ p) v)

-- Without the pattern's first code unit nothing is replaced.
pub replace-none : (u : Text) (c : ℕ) (p r : Text) → All (λ a. a ≢ c) u → replace u (c ∷ p) r ≡ u
unfolding replace replace_at starts_with
replace-none u c p r h =
    ap (λ x. replace_at [] x (c ∷ p) r) (sym (append-nil u))
    ∙ replace_at-skip [] u [] c p r h
    ∙ append-nil u
