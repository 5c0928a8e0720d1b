-- ===== src/Service/Ids/Named.antt =====
-- The name of a new resource is read as its id.
use mathlib.Core.Path.{subst}
use metadata.Prelude.{
  ℕ, suc, ◌≡◌, ◌≢◌, refl, sym, ap, ◌∙◌, ◌≤◌, ◌<◌, Bool, true, false, not, ◌&&◌, [], ◌∷◌, ◌++◌, none,
  some, arith, Bool-cases, inl, inr, ◌==◌, leb, ltb, append_assoc, drop, length, All,
}
use metadata.Prelude.Texts.{Text, text, starts_with, starts_with-append}
use metadata.Prelude.Numerals.{
  decimal, spelled, IsDigit, decimal-IsDigit, decimal-full, spelled-decimal,
}
use metadata.Prelude.Results.{ok}
use metadata.Service.{Kind, artifact, execution, types_collection, word, pos}
use metadata.Service.Ids.{
  digits, is_digit, all_digits, after_middle, last_middle, find_submatch, middle, max_int, unsigned,
  signed_text, parse_int, id_in, name_of,
}

abbrev pub IsInLine : Text → Type 0
IsInLine = All (λ c. c ≢ 10)

pub drop-append : (p s : Text) → drop (length p) (p ++ s) ≡ s
drop-append [] s = refl
drop-append (c ∷ p) s = drop-append p s

digits_whole : (ds : Text) → All IsDigit ds → digits ds ≡ ds
unfolding digits
digits_whole [] h = refl
digits_whole (d ∷ ds) h =
    let test : is_digit d ≡ true = let (a, b) = h.0 in ground arith in
    rw test (ap (d ∷◌) (digits_whole ds h.1))

later-none :
    (m : Text) (c : ℕ) (s : Text)
    → last_middle m s ≡ none
    → after_middle m (c ∷ s) ≡ none
    → last_middle m (c ∷ s) ≡ none
unfolding last_middle
later-none m c s e a = elim (Bool-cases (c == 10)) [
  | inl l ↦ rw (l, last_middle, a) refl
  | inr l ↦ rw (l, last_middle, e, a) refl
]

later-some :
    (m : Text) (c : ℕ) (s ds : Text)
    → c ≢ 10
    → last_middle m s ≡ some ds
    → last_middle m (c ∷ s) ≡ some ds
unfolding last_middle
later-some m c s ds ne e = let l : (c == 10) ≡ false = ground arith in rw (l, last_middle, e) refl

after_middle-ne : (c d : ℕ) (m s : Text) → d ≢ c → after_middle (c ∷ m) (d ∷ s) ≡ none
unfolding after_middle starts_with
after_middle-ne c d m s ne = let l : (d == c) ≡ false = ground arith in rw (l, after_middle) refl

after_middle-second : (b c d : ℕ) (m s : Text) → d ≢ c → after_middle (b ∷ c ∷ m) (b ∷ d ∷ s) ≡ none
unfolding after_middle starts_with
after_middle-second b c d m s ne =
    let l : (d == c) ≡ false = ground arith in
    let same : (b == b) ≡ true = ground arith in rw (l, same, after_middle) refl

-- A run of digits holds no slash.
last_middle-digits : (m ds : Text) → All IsDigit ds → last_middle (b'/' ∷ m) ds ≡ none
unfolding last_middle after_middle starts_with
last_middle-digits m [] h = refl
last_middle-digits m (d ∷ ds) h =
    later-none (b'/' ∷ m) d ds (last_middle-digits m ds h.1)
      (after_middle-ne b'/' d m ds (let (low, high) = h.0 in λ e. omega (arith)))

slash_digits :
    (c : ℕ) (m ds : Text) → All IsDigit ds → 57 < c → last_middle (b'/' ∷ c ∷ m) (b'/' ∷ ds) ≡ none
unfolding after_middle starts_with
slash_digits c m ds h big =
    later-none (b'/' ∷ c ∷ m) b'/' ds (last_middle-digits (c ∷ m) ds h) (here ds h)
  where
    here : (ds : Text) → All IsDigit ds → after_middle (b'/' ∷ c ∷ m) (b'/' ∷ ds) ≡ none
    here [] h = refl
    here (d ∷ ds) h =
        after_middle-second b'/' c d m ds (let (low, high) = h.0 in λ e. omega (arith))

-- A text with no slash before what has no fit.
last_middle-before :
    (m u s : Text)
    → All (λ c. c ≢ b'/') u
    → last_middle (b'/' ∷ m) s ≡ none
    → last_middle (b'/' ∷ m) (u ++ s) ≡ none
last_middle-before m [] s h e = e
last_middle-before m (c ∷ u) s h e =
    later-none (b'/' ∷ m) c (u ++ s) (last_middle-before m u s h.1 e)
      (after_middle-ne b'/' c m (u ++ s) h.0)

abbrev pub without : ℕ → Text → Bool
without c [] = true
without c (d ∷ s) = not (d == c) && without c s

pub without-All : (c : ℕ) (s : Text) → without c s ≡ true → All (λ d. d ≢ c) s
without-All c [] h = tt
without-All c (d ∷ s) h = ((λ e. ground arith), without-All c s (ground arith))

word-plain : (k : Kind) → All (λ c. c ≢ b'/') (word k)
word-plain artifact = without-All b'/' (word artifact) refl
word-plain execution = without-All b'/' (word execution) refl

digits-some : (m ds : Text) → All IsDigit ds → 0 < length ds → after_middle m (m ++ ds) ≡ some ds
unfolding after_middle
digits-some m ds h full =
    let whole : digits (drop (length m) (m ++ ds)) ≡ ds =
      ap digits (drop-append m ds) ∙ digits_whole ds h in
    let test : ltb 0 (length ds) ≡ true = ground arith in
    rw (starts_with-append m ds, whole, test) refl

-- After the last `/artifacts/` the digits are found.
last_middle-name :
    (k : Kind) (t ds : Text)
    → IsInLine t
    → All IsDigit ds
    → 0 < length ds
    → last_middle (middle k) (t ++ (middle k ++ ds)) ≡ some ds
unfolding last_middle
last_middle-name k (c ∷ t) ds h d full =
    later-some (middle k) c (t ++ (middle k ++ ds)) ds h.0 (last_middle-name k t ds h.1 d full)
last_middle-name k [] ds h d full =
    let w = word k ++ (b'/' ∷ []) in
    let shape : w ++ ds ≡ word k ++ (b'/' ∷ ds) = append_assoc (word k) (b'/' ∷ []) ds in
    let tail : last_middle (middle k) (b'/' ∷ ds) ≡ none = slash_word k ds d in
    let rest : last_middle (middle k) (w ++ ds) ≡ none =
      rw shape (last_middle-before w (word k) (b'/' ∷ ds) (word-plain k) tail) in
    rw (rest, last_middle) (digits-some (middle k) ds d full)
  where
    slash_word : (k : Kind) (ds : Text) → All IsDigit ds → last_middle (middle k) (b'/' ∷ ds) ≡ none
    slash_word artifact ds d = slash_digits b'a' (text "rtifacts/") ds d (omega arith)
    slash_word execution ds d = slash_digits b'e' (text "xecutions/") ds d (omega arith)

find_submatch-name :
    (k : Kind) (t ds : Text)
    → IsInLine t
    → All IsDigit ds
    → 0 < length ds
    → find_submatch (types_collection k) (middle k) (types_collection k ++ (t ++ (middle k ++ ds)))
      ≡ some ds
unfolding find_submatch
find_submatch-name artifact t ds h d full =
    rw (last_middle-name artifact t ds h d full, find_submatch, starts_with) refl
find_submatch-name execution t ds h d full =
    rw (last_middle-name execution t ds h d full, find_submatch, starts_with) refl

all_digits-All : (ds : Text) → All IsDigit ds → all_digits ds ≡ true
all_digits-All [] h = refl
all_digits-All (d ∷ ds) h =
    let (low, high) = h.0 in let rest = all_digits-All ds h.1 in ground arith

parse_int-digits :
    (d : ℕ) (ds : Text)
    → All IsDigit (d ∷ ds)
    → spelled 0 (d ∷ ds) ≤ max_int
    → parse_int (d ∷ ds) ≡ some (pos (spelled 0 (d ∷ ds)))
unfolding parse_int
parse_int-digits d ds h small =
    let (low, high) = h.0 in
    let minus : (d == b'-') ≡ false = ground arith in
    let plus : (d == b'+') ≡ false = ground arith in
    let each : all_digits (d ∷ ds) ≡ true = all_digits-All (d ∷ ds) h in
    let fits : leb (spelled 0 (d ∷ ds)) max_int ≡ true = ground arith in
    let number : unsigned (d ∷ ds) ≡ some (spelled 0 (d ∷ ds)) =
      let long : ltb 0 (suc (length ds)) ≡ true = ground arith in rw (long, each) refl in
    let value : signed_text false (d ∷ ds) ≡ some (pos (spelled 0 (d ∷ ds))) =
      rw (number, signed_text, fits) refl in
    rw (minus, plus) value

parse_int-decimal : (n : ℕ) → n ≤ max_int → parse_int (decimal n) ≡ some (pos n)
parse_int-decimal n small =
    let (d, ds, e) = decimal-full n in
    let h : All IsDigit (d ∷ ds) = subst (All IsDigit) e (decimal-IsDigit n) in
    let value : spelled 0 (d ∷ ds) ≡ n = ap (spelled 0) (sym e) ∙ spelled-decimal n in
    rw e (parse_int-digits d ds h (omega arith) ∙ ap (λ v. some (pos v)) value)

-- The name that a new artifact or execution gets under its type is read as its id.
pub id_in-name_of :
    (k : Kind) (t : Text) (n : ℕ)
    → IsInLine t
    → n ≤ max_int
    → id_in k (name_of k (types_collection k ++ t) (pos n)) ≡ ok (pos n)
unfolding id_in
id_in-name_of k t n h small =
    let (d, ds, e) = decimal-full n in
    let full : 0 < length (decimal n) = rw e (omega arith) in
    let shape : name_of k (types_collection k ++ t) (pos n)
        ≡ types_collection k ++ (t ++ (middle k ++ decimal n)) =
      append_assoc (types_collection k) t (middle k ++ decimal n) in
    rw
      (
        shape,
        find_submatch-name k t (decimal n) h (decimal-IsDigit n) full,
        id_in,
        parse_int-decimal n small,
      )
      refl
