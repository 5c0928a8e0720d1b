-- ===== src/Utils/Compare.antt =====
-- lib/Utils.tsx, `rowCompareFn`. `to_number` is JavaScript's conversion of a text to a number, which
-- `<` makes when a text meets a number.
pub mod Ordering
use metadata.Prelude.{
  ℕ, ◌-◌, Bool, true, false, List, [], ◌∷◌, Option, none, some, if◌then◌else◌, length, take,
  find_index,
}
use metadata.Prelude.Texts.{Text, text_eq, ends_with}
use metadata.Value.{Value, undefined, empty_string, is_empty, ◌|||◌, value_lt}
use metadata.Rows.{Row, Column, ListRequest, field_at}
use metadata.Table.State.{desc_suffix}

-- The numbers -1 and 1; the function returns no other.
pub data Sign : Type 0 where
  minus_one one : Sign

-- `request.sortBy` without the suffix ` desc`.
unfoldable pub cleaned_sort_by : Text → Text
cleaned_sort_by sort_by =
    if ends_with sort_by desc_suffix
    then take (length sort_by - length desc_suffix) sort_by
    else sort_by

abbrev pub same_key : Text → Option Text → Bool
same_key key none = false
same_key key (some k) = text_eq key k

-- `columns.findIndex(c => cleanedSortBy === c.sortKey)`.
abbrev pub sort_index : List Column → Text → Option ℕ
sort_index columns key = find_index (λ c. same_key key c.sort_key) columns

-- `r.otherFields[sortIndex] || ''`, where the index -1 holds nothing.
abbrev pub sort_value : Option ℕ → Row → Value
sort_value none r = empty_string
sort_value (some i) r = field_at r.other_fields i ||| empty_string

module _ (to_number : Text → Option ℕ) where
  abbrev pub compared : Bool → Bool → Sign
  compared true less = if less then minus_one else one
  compared false less = if less then one else minus_one

  unfoldable pub row_compare_fn : ListRequest → List Column → Row → Row → Sign
  row_compare_fn request columns r1 r2 = elim request.sort_by [
    | none ↦ minus_one
    | some sort_by ↦
        if is_empty sort_by
        then minus_one
        else let i = sort_index columns (cleaned_sort_by sort_by) in
          compared request.order_ascending (value_lt to_number (sort_value i r1) (sort_value i r2))
  ]
