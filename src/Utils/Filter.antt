-- ===== src/Utils/Filter.antt =====
-- lib/Utils.tsx, `rowFilterFn`. The parameters are the built-in functions whose definition is a
-- table or a grammar of its own: `toLowerCase`, `decodeURIComponent` (nothing for a `URIError`),
-- `JSON.parse` (nothing for a `SyntaxError`) and `'' + v`.
pub mod Kept
use metadata.Prelude.{
  ℕ, Bool, true, false, not, ◌&&◌, ◌||◌, List, [], ◌∷◌, ◌++◌, Option, none, some, if◌then◌else◌,
  leb,
}
use metadata.Prelude.Texts.{Text, text, includes}
use metadata.Value.{Value, is_empty, joined}
use metadata.Rows.{Row, ListRequest}
use metadata.Json.{Json, is_true, member, has_length_zero, at_zero}

-- `/^[a-z]+$/.test(s)`.
all_lower : Text → Bool
all_lower [] = true
all_lower (c ∷ s) = (leb b'a' c && leb c b'z') && all_lower s

unfoldable pub is_lower_word : Text → Bool
unfolding all_lower
is_lower_word s = not (is_empty s) && all_lower s

-- `r.otherFields.join('')`.
pub join_fields : List Value → Text
join_fields [] = []
join_fields (v ∷ vs) = joined v ++ join_fields vs

abbrev or_json : Option Json → Option Json → Option Json
or_json a b = if is_true a then a else b

-- What the filter object asks for: everything, the rows with a text, or nothing that can be read.
pub data Wanted : Type 0 where
  everything : Wanted
  rows_having : Option Json → Wanted
  unreadable : Wanted

abbrev pub first_value : Option Json → Wanted
first_value p = elim (member (text "int_value") p) [
  | none ↦ unreadable
  | some i ↦ elim (member (text "long_value") p) [
    | none ↦ unreadable
    | some l ↦ elim (member (text "string_value") p) [
      | none ↦ unreadable
      | some s ↦ rows_having (or_json (or_json i l) s)
    ]
  ]
]

abbrev pub wanted_of : Option Json → Wanted
wanted_of none = everything
wanted_of (some predicates) =
    if not (is_true (some predicates)) || has_length_zero predicates
    then everything
    else first_value (at_zero predicates)

module _ (to_lower_case : Text → Text) (decode_uri_component : Text → Option Text)
    (parse : Text → Option Json) (to_text : Option Json → Text) where
  -- The `try` block: `JSON.parse`, then the first predicate's value.
  unfoldable pub wanted : Text → Wanted
  wanted decoded = elim (parse decoded) [
    | none ↦ unreadable
    | some filter ↦ elim (member (text "predicates") (some filter)) [
      | none ↦ unreadable
      | some predicates ↦ wanted_of predicates
    ]
  ]

  pub kept : Wanted → Row → Bool
  kept everything r = true
  kept unreadable r = true
  kept (rows_having v) r =
      includes (to_lower_case (join_fields r.other_fields)) (to_lower_case (to_text v))

  -- Nothing when `decodeURIComponent`, which stands before the `try`, throws.
  unfoldable pub row_filter_fn : ListRequest → Row → Option Bool
  unfolding kept wanted
  row_filter_fn request r = elim request.filter [
    | none ↦ some true
    | some f ↦ if is_empty f || is_lower_word f then some true else elim (decode_uri_component f) [
      | none ↦ none
      | some decoded ↦ some (kept (wanted decoded) r)
    ]
  ]
