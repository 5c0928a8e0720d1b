-- ===== src/Utils/Filter/Kept.antt =====
-- Which rows a filter keeps.
use metadata.Prelude.{
  Bool, true, false, Option, none, some, if◌then◌else◌, ◌≡◌, ◌⊎◌, inl, inr, arith, Bool-cases,
  is_some,
}
use metadata.Prelude.Texts.{Text, text}
use metadata.Value.{is_empty}
use metadata.Rows.{Row, ListRequest}
use metadata.Json.{Json, member, is_true}
use metadata.Utils.Filter.{is_lower_word, everything, unreadable, wanted, row_filter_fn}

module _ (to_lower_case : Text → Text) (decode_uri_component : Text → Option Text)
    (parse : Text → Option Json) (to_text : Option Json → Text) where
  abbrev keep : ListRequest → Row → Option Bool
  keep = row_filter_fn to_lower_case decode_uri_component parse to_text

  -- A filter that is empty or consists of lower-case letters a to z keeps every row, whatever the
  -- row holds: such a word is never searched for.
  pub row_filter_fn-word :
      (request : ListRequest) (f : Text) (r : Row)
      → request.filter ≡ some f
      → (is_empty f ≡ true) ⊎ (is_lower_word f ≡ true)
      → keep request r ≡ some true
  unfolding row_filter_fn
  row_filter_fn-word request f r e h = elim (Bool-cases (is_empty f)) [
    | inl empty ↦ rw (e, empty)
    | inr some_text ↦ let word : is_lower_word f ≡ true = ground arith in rw (e, some_text, word)
  ]

  -- A predicate's value: its `int_value` if that is true, or else its `long_value` if that is true, or
  -- else its `string_value`.
  pub data HasValue (predicate : Option Json) : Option Json → Type 0 where
    as_int :
        {i l s : Option Json}
        → member (text "int_value") predicate ≡ some i
        → member (text "long_value") predicate ≡ some l
        → member (text "string_value") predicate ≡ some s
        → is_true i ≡ true
        → HasValue predicate i
    as_long :
        {i l s : Option Json}
        → member (text "int_value") predicate ≡ some i
        → member (text "long_value") predicate ≡ some l
        → member (text "string_value") predicate ≡ some s
        → is_true i ≡ false
        → is_true l ≡ true
        → HasValue predicate l
    as_string :
        {i l s : Option Json}
        → member (text "int_value") predicate ≡ some i
        → member (text "long_value") predicate ≡ some l
        → member (text "string_value") predicate ≡ some s
        → is_true i ≡ false
        → is_true l ≡ false
        → HasValue predicate s

  -- Any other filter that cannot be decoded makes the function throw; one that decodes to no JSON,
  -- or to JSON without a predicate, keeps every row.
  pub row_filter_fn-unreadable :
      (request : ListRequest) (f : Text) (r : Row)
      → request.filter ≡ some f
      → is_empty f ≡ false
      → is_lower_word f ≡ false
      → (decode_uri_component f ≡ none)
        ⊎ ((decoded : Text) × (decode_uri_component f ≡ some decoded)
            × (wanted to_lower_case decode_uri_component parse to_text decoded ≡ unreadable))
        ⊎ ((decoded : Text) × (decode_uri_component f ≡ some decoded)
            × (wanted to_lower_case decode_uri_component parse to_text decoded ≡ everything))
      → keep request r ≡ (if is_some (decode_uri_component f) then some true else none)
  unfolding row_filter_fn
  row_filter_fn-unreadable request f r e some_text no_word (inl d) = rw (e, some_text, no_word, d)
  row_filter_fn-unreadable request f r e some_text no_word (inr (inl (decoded, d, w))) =
      rw (e, some_text, no_word, d, w)
  row_filter_fn-unreadable request f r e some_text no_word (inr (inr (decoded, d, w))) =
      rw (e, some_text, no_word, d, w)
