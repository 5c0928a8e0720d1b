-- ===== src/Details/Events.antt =====
-- pages/ExecutionDetails.tsx, `parseEventsByType`: the ids of the artifacts of each kind of event.
pub mod Collected
use metadata.Prelude.{ℕ, Bool, true, false, List, [], ◌∷◌, ◌++◌, Option, none, some, if◌then◌else◌}

-- `Event.Type` of the metadata store, less the numbers that it does not list.
pub data EventType : Type 0 where
  unknown declared_input input declared_output output internal_input internal_output : EventType

abbrev pub same : EventType → EventType → Bool
same unknown unknown = true
same declared_input declared_input = true
same input input = true
same declared_output declared_output = true
same output output = true
same internal_input internal_input = true
same internal_output internal_output = true
same _ _ = false

-- What `getType` gives: nothing, a listed type, or another number.
pub data RawType : Type 0 where
  absent : RawType
  listed : EventType → RawType
  unlisted : ℕ → RawType

pub record Event : Type 0 where
  pub type : RawType
  pub artifact_id : Option ℕ

-- The arrays of `events` by type.
abbrev pub Events : Type 0
Events = EventType → List ℕ

abbrev pub no_events : Events
no_events u = []

abbrev pub push : Events → EventType → ℕ → Events
push events t id u = if same t u then events u ++ id ∷ [] else events u

-- One round of the `forEach`; nothing for `events[type].push` on undefined.
pub record_event : Events → RawType → Option ℕ → Option Events
record_event events absent id = some events
record_event events (listed t) none = some events
record_event events (listed t) (some id) = some (push events t id)
record_event events (unlisted n) none = some events
record_event events (unlisted n) (some id) = none

pub record_events : Events → List Event → Option Events
unfolding record_event
record_events events [] = some events
record_events events (e ∷ rest) = elim (record_event events e.type e.artifact_id) [
  | none ↦ none
  | some next ↦ record_events next rest
]

-- `response` is nothing for null.
unfoldable pub parse_events_by_type : Option (List Event) → Option Events
unfolding record_events
parse_events_by_type none = some no_events
parse_events_by_type (some list) = record_events no_events list
