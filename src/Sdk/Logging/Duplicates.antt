-- ===== src/Sdk/Logging/Duplicates.antt =====
-- What it means that an artifact is not in the store yet, and that no two in the store are the same.
use metadata.Prelude.{
  ℕ, ◌≡◌, refl, sym, ap, ◌∙◌, true, false, List, [], ◌∷◌, ◌++◌, none, some, All, filter_by,
  Bool-cases, inl, inr, arith,
}
use metadata.Prelude.Texts.{Text, text_eq, text_eq_iff}
use metadata.Sdk.{Pb, is_duplicated}
use metadata.Sdk.Logging.{duplicate}

abbrev pub IsNew : Pb → List Pb → Type 0
IsNew a = All (λ b. is_duplicated a b ≡ false)

-- No artifact is a duplicate of one before it.
abbrev pub AreApart : List Pb → Type 0
AreApart [] = Unit {0}
AreApart (a ∷ rest) = All (λ b. is_duplicated b a ≡ false) rest × AreApart rest

All-last : (P : Pb → Type 0) (xs : List Pb) (a : Pb) → All P xs → P a → All P (xs ++ a ∷ [])
All-last P [] a h p = (p, tt)
All-last P (x ∷ xs) a h p = (h.0, All-last P xs a h.1 p)

pub AreApart-append : (xs : List Pb) (a : Pb) → AreApart xs → IsNew a xs → AreApart (xs ++ a ∷ [])
AreApart-append [] a h n = (tt, tt)
AreApart-append (x ∷ xs) a h n =
    (All-last (λ b. is_duplicated b x ≡ false) xs a h.0 n.0, AreApart-append xs a h.1 n.1)

-- The id is not compared.
pub with_id-IsNew :
    (a : Pb) (id : ℕ) (xs : List Pb) → IsNew a xs → IsNew (record a { id = some id }) xs
unfolding is_duplicated
with_id-IsNew a id [] h = tt
with_id-IsNew a id (x ∷ xs) h = (h.0, with_id-IsNew a id xs h.1)

other_uri : (a b : Pb) → text_eq b.uri a.uri ≡ false → is_duplicated a b ≡ false
unfolding is_duplicated
other_uri a b h =
    let other : text_eq a.uri b.uri ≡ false =
      ground (arith, text_eq_iff a.uri b.uri, text_eq_iff b.uri a.uri) in
    ground arith

-- What is not found among the artifacts with its uri is not found at all.
pub duplicate-IsNew :
    (a : Pb) (uri : Text) (xs : List Pb)
    → a.uri ≡ uri
    → duplicate is_duplicated a (filter_by (λ b. text_eq b.uri uri) xs) ≡ none
    → IsNew a xs
unfolding duplicate
duplicate-IsNew a uri [] u h = tt
duplicate-IsNew a uri (x ∷ xs) u h = elim (Bool-cases (text_eq x.uri uri)) [
  | inl same ↦
      let h' : duplicate is_duplicated a (x ∷ filter_by (λ b. text_eq b.uri uri) xs) ≡ none =
        sym (ap (duplicate is_duplicated a) (kept x xs same)) ∙ h in
      (
        not_first x (filter_by (λ b. text_eq b.uri uri) xs) h',
        duplicate-IsNew a uri xs u (not_later x (filter_by (λ b. text_eq b.uri uri) xs) h'),
      )
  | inr other ↦ (
    other_uri a x (ap (text_eq x.uri) u ∙ other),
    duplicate-IsNew a uri xs u (sym (ap (duplicate is_duplicated a) (dropped x xs other)) ∙ h),
  )
]
  where
    kept :
        (x : Pb) (xs : List Pb)
        → text_eq x.uri uri ≡ true
        → filter_by (λ b. text_eq b.uri uri) (x ∷ xs) ≡ x ∷ filter_by (λ b. text_eq b.uri uri) xs
    kept x xs e = rw e refl

    dropped :
        (x : Pb) (xs : List Pb)
        → text_eq x.uri uri ≡ false
        → filter_by (λ b. text_eq b.uri uri) (x ∷ xs) ≡ filter_by (λ b. text_eq b.uri uri) xs
    dropped x xs e = rw e refl

    not_first :
        (x : Pb) (xs : List Pb)
        → duplicate is_duplicated a (x ∷ xs) ≡ none
        → is_duplicated a x ≡ false
    not_first x xs e = ground arith

    not_later :
        (x : Pb) (xs : List Pb)
        → duplicate is_duplicated a (x ∷ xs) ≡ none
        → duplicate is_duplicated a xs ≡ none
    not_later x xs e = ground arith
