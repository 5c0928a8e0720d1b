-- ===== src/Lists/View/Typing.antt =====
-- From the filter box of a list page to the rows: the text that is typed, the request that it leads
-- to, and the filter function of lib/Utils.tsx.
use metadata.Prelude.{◌≡◌, ◌⊎◌, Option, none, some}
use metadata.Prelude.Texts.{Text}
use metadata.Rows.{ListRequest}
use metadata.Json.{Json}
use metadata.Table.State.{CustomTable}
use metadata.Table.Events.{start, handle_filter_change, debounce_fires}
use metadata.Utils.Filter.{wanted, everything, unreadable}

-- The request that follows when a text is typed and the debounced function fires.
abbrev pub typed_request : CustomTable → Text → Option ListRequest
typed_request c value = elim (debounce_fires (handle_filter_change c value)) [
  | none ↦ none
  | some (d, e) ↦ elim (start d e) [ none ↦ none | some s ↦ some s.request ]
]

module _ (to_lower_case : Text → Text) (decode_uri_component : Text → Option Text)
    (parse : Text → Option Json) (to_text : Option Json → Text) where
  -- Text that cannot be decoded, or that is no JSON then, or JSON without a predicate.
  abbrev pub HasNoPredicate : Text → Type 0
  HasNoPredicate value =
      (decode_uri_component value ≡ none)
      ⊎ ((decoded : Text) × (decode_uri_component value ≡ some decoded)
          × (wanted to_lower_case decode_uri_component parse to_text decoded ≡ unreadable))
      ⊎ ((decoded : Text) × (decode_uri_component value ≡ some decoded)
          × (wanted to_lower_case decode_uri_component parse to_text decoded ≡ everything))
