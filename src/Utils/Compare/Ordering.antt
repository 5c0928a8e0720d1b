-- ===== src/Utils/Compare/Ordering.antt =====
-- The comparison against the table that sends the request: the suffix ` desc` is taken off again,
-- and the column with the table's sort key decides.
use metadata.Prelude.{
  ℕ, ◌-◌, Bool, true, false, List, [], ◌∷◌, ◌++◌, Option, some, length, take, ◌≡◌, ◌↔◌, refl, sym,
  ◌∙◌, ap, arith, length-append, Bool-cases, inl, inr,
}
use metadata.Prelude.Texts.{Text, ends_with, ends_with-append}
use metadata.Value.{is_empty, value_lt}
use metadata.Rows.{Row, Column, ListRequest}
use metadata.Table.State.{
  desc_suffix, sent_sort_by, CustomTable, LoadRequest, reload, assign, request_of,
}
use metadata.Utils.Compare.{
  cleaned_sort_by, sort_index, sort_value, minus_one, compared, row_compare_fn,
}

take-append : (s t : Text) → take (length s) (s ++ t) ≡ s
take-append [] t = refl
take-append (c ∷ s) t = ap (c ∷◌) (take-append s t)

cleaned-suffixed : (s : Text) → cleaned_sort_by (s ++ desc_suffix) ≡ s
unfolding cleaned_sort_by
cleaned-suffixed s =
    let n : length (s ++ desc_suffix) - length desc_suffix ≡ length s =
      omega (arith, length-append s desc_suffix) in
    rw (ends_with-append s desc_suffix, n) (take-append s desc_suffix)

cleaned-plain : (s : Text) → ends_with s desc_suffix ≡ false → cleaned_sort_by s ≡ s
unfolding cleaned_sort_by
cleaned-plain s h = rw h

is_empty-append : (s t : Text) → is_empty s ≡ false → is_empty (s ++ t) ≡ false
is_empty-append [] t h = cc
is_empty-append (c ∷ s) t h = refl

cleaned-sent :
    (key : Text) (ascending : Bool)
    → ends_with key desc_suffix ≡ false
    → cleaned_sort_by (sent_sort_by key ascending) ≡ key
unfolding sent_sort_by
cleaned-sent key true h = elim (Bool-cases (is_empty key)) [
  | inl e ↦ rw e (cleaned-plain key h)
  | inr e ↦ rw e (cleaned-plain key h)
]
cleaned-sent key false h = elim (Bool-cases (is_empty key)) [
  | inl e ↦ rw e (cleaned-plain key h)
  | inr e ↦ rw e (cleaned-suffixed key)
]

sent-not-empty :
    (key : Text) (ascending : Bool)
    → is_empty key ≡ false
    → is_empty (sent_sort_by key ascending) ≡ false
unfolding sent_sort_by
sent-not-empty key true h = rw h h
sent-not-empty key false h = rw h (is_empty-append key desc_suffix h)

before_iff :
    (to_number : Text → Option ℕ) (ascending less : Bool)
    → (compared to_number ascending less ≡ minus_one) ↔ (less ≡ ascending)
before_iff to_number true true = (λ h. refl, λ h. refl)
before_iff to_number true false = (λ h. cc, λ h. cc)
before_iff to_number false true = (λ h. cc, λ h. cc)
before_iff to_number false false = (λ h. refl, λ h. refl)

row_compare_fn-compared :
    (to_number : Text → Option ℕ) (c : CustomTable) (l : LoadRequest) (columns : List Column)
    (r1 r2 : Row)
    → is_empty (assign c.state l).sort_by ≡ false
    → ends_with (assign c.state l).sort_by desc_suffix ≡ false
    → row_compare_fn to_number (reload c l).1 columns r1 r2
      ≡ compared to_number (assign c.state l).order_ascending (
          value_lt to_number
            (sort_value (sort_index columns (assign c.state l).sort_by) r1)
            (sort_value (sort_index columns (assign c.state l).sort_by) r2))
unfolding row_compare_fn reload request_of
row_compare_fn-compared to_number c l columns r1 r2 some_key plain =
    let a = assign c.state l in
    let sent = sent-not-empty a.sort_by a.order_ascending some_key in
    rw sent (
      ap
        (λ k. compared to_number a.order_ascending (
          value_lt to_number (sort_value (sort_index columns k) r1)
            (sort_value (sort_index columns k) r2)))
        (cleaned-sent a.sort_by a.order_ascending plain))

-- For a request that the table sends, sorted by a key that is not empty and does not end with
-- ` desc`, the column of exactly that key decides: where the table sorts upwards, a row is put before
-- another if its cell is less, and behind it otherwise; where the table sorts downwards, it is put
-- behind the other if its cell is less, and before it otherwise.
pub row_compare_fn-reload :
    (to_number : Text → Option ℕ) (c : CustomTable) (l : LoadRequest) (columns : List Column)
    (r1 r2 : Row)
    → is_empty (assign c.state l).sort_by ≡ false
    → ends_with (assign c.state l).sort_by desc_suffix ≡ false
    → (row_compare_fn to_number (reload c l).1 columns r1 r2 ≡ minus_one) ↔ (
        value_lt to_number
          (sort_value (sort_index columns (assign c.state l).sort_by) r1)
          (sort_value (sort_index columns (assign c.state l).sort_by) r2)
        ≡ (assign c.state l).order_ascending)
row_compare_fn-reload to_number c l columns r1 r2 some_key plain =
    let less =
      value_lt to_number (sort_value (sort_index columns (assign c.state l).sort_by) r1)
        (sort_value (sort_index columns (assign c.state l).sort_by) r2) in
    let same = row_compare_fn-compared to_number c l columns r1 r2 some_key plain in
    let (there, back) = before_iff to_number (assign c.state l).order_ascending less in
    (λ h. there (sym same ∙ h), λ h. same ∙ back h)

-- Rows that the request's sort column cannot tell apart are each put before the other, or each
-- behind it: the answer is never 0, so it is no consistent order for `sort`.
pub row_compare_fn-tie :
    (to_number : Text → Option ℕ) (request : ListRequest) (columns : List Column) (key : Text)
    (r1 r2 : Row)
    → request.sort_by ≡ some key
    → value_lt to_number
        (sort_value (sort_index columns (cleaned_sort_by key)) r1)
        (sort_value (sort_index columns (cleaned_sort_by key)) r2)
      ≡ false
    → value_lt to_number
        (sort_value (sort_index columns (cleaned_sort_by key)) r2)
        (sort_value (sort_index columns (cleaned_sort_by key)) r1)
      ≡ false
    → row_compare_fn to_number request columns r1 r2
      ≡ row_compare_fn to_number request columns r2 r1
unfolding row_compare_fn
row_compare_fn-tie to_number request columns key r1 r2 e h k = rw (e, h, k)
