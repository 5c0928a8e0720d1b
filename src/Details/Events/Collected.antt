-- ===== src/Details/Events/Collected.antt =====
-- What `parseEventsByType` collects for each type of event.
use metadata.Prelude.{
  ℕ, ◌≡◌, refl, Bool, true, false, ◌||◌, List, [], ◌∷◌, ◌++◌, Option, none, some, if◌then◌else◌,
  append_assoc, append-nil, inl, inr, Bool-cases, ◌∙◌,
}
use metadata.Details.Events.{
  EventType, same, RawType, absent, listed, unlisted, Event, Events, no_events, push, record_event,
  record_events, parse_events_by_type,
}

-- The ids of the events of type `u`, in their order.
abbrev id_of : EventType → RawType → Option ℕ → List ℕ
id_of u (listed t) (some id) = if same t u then id ∷ [] else []
id_of u _ _ = []

pub ids_of : EventType → List Event → List ℕ
ids_of u [] = []
ids_of u (e ∷ rest) = id_of u e.type e.artifact_id ++ ids_of u rest

abbrev is_rejected : RawType → Option ℕ → Bool
is_rejected (unlisted n) (some id) = true
is_rejected _ _ = false

unfoldable pub has_unlisted : List Event → Bool
has_unlisted [] = false
has_unlisted (e ∷ rest) = is_rejected e.type e.artifact_id || has_unlisted rest

abbrev pub at_type : Option Events → EventType → Option (List ℕ)
at_type none u = none
at_type (some events) u = some (events u)

abbrev collected : Bool → List ℕ → Option (List ℕ)
collected rejected ids = if rejected then none else some ids

push-ids :
    (events : Events) (t : EventType) (id : ℕ) (u : EventType) (ids : List ℕ)
    → push events t id u ++ ids ≡ events u ++ (id_of u (listed t) (some id) ++ ids)
push-ids events t id u ids = elim (Bool-cases (same t u)) [
  | inl e ↦ rw e (append_assoc (events u) (id ∷ []) ids)
  | inr e ↦ rw e refl
]

record_events-at_step :
    (events : Events) (t : RawType) (id : Option ℕ) (rest : List Event) (u : EventType)
    → ((next : Events)
        → at_type (record_events next rest) u
          ≡ collected (has_unlisted rest) (next u ++ ids_of u rest))
    → at_type
        (elim (record_event events t id) [ none ↦ none | some next ↦ record_events next rest ])
        u
      ≡ collected
          (is_rejected t id || has_unlisted rest)
          (events u ++ (id_of u t id ++ ids_of u rest))
unfolding record_event
record_events-at_step events absent id rest u ih = ih events
record_events-at_step events (listed t) none rest u ih = ih events
record_events-at_step events (listed t) (some id) rest u ih =
    ih (push events t id)
    ∙ (λ k. collected (has_unlisted rest) (push-ids events t id u (ids_of u rest) k))
record_events-at_step events (unlisted n) none rest u ih = ih events
record_events-at_step events (unlisted n) (some id) rest u ih = refl

record_events-at :
    (events : Events) (list : List Event) (u : EventType)
    → at_type (record_events events list) u
      ≡ collected (has_unlisted list) (events u ++ ids_of u list)
unfolding record_events has_unlisted ids_of
record_events-at events [] u = rw (append-nil (events u)) refl
record_events-at events (e ∷ rest) u =
    record_events-at_step events e.type e.artifact_id rest u (λ next. record_events-at next rest u)

-- For every type, `parseEventsByType` gives the ids of that type's events in their order, events
-- without a type or an id left out; it throws exactly when an event with an id has a number as type
-- that the store does not list.
pub parse_events_by_type-collects :
    (list : List Event) (u : EventType)
    → at_type (parse_events_by_type (some list)) u
      ≡ (if has_unlisted list then none else some (ids_of u list))
unfolding parse_events_by_type
parse_events_by_type-collects list u = record_events-at no_events list u
