-- ===== src/Service/Events/Collected.antt =====
-- What the maps of ListEvents hold.
use mathlib.Core.Path.{subst}
use metadata.Prelude.{
  ◌≡◌, refl, sym, ap, ◌∙◌, Bool, true, false, ◌||◌, List, [], ◌∷◌, Option, none, some, is_some,
  if◌then◌else◌, All, Bool-cases, Option-cases, inl, inr,
}
use metadata.Prelude.Texts.{Text}
use metadata.Prelude.Results.{Result, ok, err, map_err, steps-ok, map_err-ok, Result-cases}
use metadata.Service.{Kind, artifact, execution, ℤ, Resource, Event, Store, Error, in_events}
use metadata.Service.Resources.{get_one}
use metadata.Service.Events.{
  int_eq, int_eq_iff, id_of, found, collect, get_in_events, list_events, EventsResponse, events_of,
  kind_named, Found,
}

-- An event of the list has the id.
abbrev pub occurs : Kind → ℤ → List Event → Bool
occurs k id [] = false
occurs k id (e ∷ es) = int_eq (id_of k e) id || occurs k id es

abbrev pub answer {ℓ} : {A : Type ℓ} → Result {0, ℓ} Error A → Option A
answer (ok a) = some a
answer (err e) = none

abbrev or_option {ℓ} : {A : Type ℓ} → Option A → Option A → Option A
or_option none b = b
or_option (some a) b = some a

or_option-none {ℓ} : {A : Type ℓ} (o : Option A) → or_option o none ≡ o
or_option-none none = refl
or_option-none (some a) = refl

module _ (st : Store) (k : Kind) (s : st.State) where
  abbrev asked : ℤ → List Event → Option (Resource st.Rest)
  asked id es = if occurs k id es then answer (get_one st k s id) else none

  asked-other :
      (id : ℤ) (e : Event) (es : List Event)
      → int_eq (id_of k e) id ≡ false
      → asked id (e ∷ es) ≡ asked id es
  asked-other id e es h = rw h refl

  got_at :
      (e : Event) (id : ℤ) (a : Resource st.Rest)
      → int_eq (id_of k e) id ≡ true
      → get_one st k s (id_of k e) ≡ ok a
      → get_one st k s id ≡ ok a
  got_at e id a same got = ap (get_one st k s) (sym ((int_eq_iff (id_of k e) id).0 same)) ∙ got

  module _ (acc : Found st) (e : Event) (es : List Event) where
    collect-old :
        (a : Resource st.Rest)
        → found (id_of k e) acc ≡ some a
        → collect st k s acc (e ∷ es) ≡ collect st k s acc es
    unfolding collect
    collect-old a h = rw (h, collect) refl

    collect-new :
        (a : Resource st.Rest)
        → found (id_of k e) acc ≡ none
        → get_one st k s (id_of k e) ≡ ok a
        → collect st k s acc (e ∷ es) ≡ collect st k s ((id_of k e, a) ∷ acc) es
    unfolding collect
    collect-new a h got = rw (h, got, collect) refl

    collect-fails :
        (x : Error)
        → found (id_of k e) acc ≡ none
        → get_one st k s (id_of k e) ≡ err x
        → collect st k s acc (e ∷ es) ≡ err x
    unfolding collect
    collect-fails x h got = rw (h, got, collect) refl

  found-skip :
      (acc : Found st) (e : Event) (es : List Event) (a : Resource st.Rest) (id : ℤ)
      → found (id_of k e) acc ≡ some a
      → or_option (found id acc) (asked id es) ≡ or_option (found id acc) (asked id (e ∷ es))
  found-skip acc e es a id old = elim (Bool-cases (int_eq (id_of k e) id)) [
    | inl same ↦
        let there : found id acc ≡ some a =
          ap (λ i. found i acc) (sym ((int_eq_iff _ _).0 same)) ∙ old in
        rw there refl
    | inr other ↦ ap (or_option (found id acc)) (sym (asked-other id e es other))
  ]

  found-first :
      (acc : Found st) (e : Event) (es : List Event) (a : Resource st.Rest) (id : ℤ)
      → found (id_of k e) acc ≡ none
      → get_one st k s (id_of k e) ≡ ok a
      → or_option (found id ((id_of k e, a) ∷ acc)) (asked id es)
        ≡ or_option (found id acc) (asked id (e ∷ es))
  unfolding found
  found-first acc e es a id new got = elim (Bool-cases (int_eq (id_of k e) id)) [
    | inl same ↦
        let there : found id acc ≡ none =
          ap (λ i. found i acc) (sym ((int_eq_iff _ _).0 same)) ∙ new in
        rw (same, there) (sym (ap answer (got_at e id a same got)))
    | inr other ↦ rw other refl
  ]

  collect-found :
      (acc : Found st) (es : List Event) (m : Found st) (id : ℤ)
      → collect st k s acc es ≡ ok m
      → found id m ≡ or_option (found id acc) (asked id es)
  unfolding collect
  collect-found acc [] m id h =
      let same : acc ≡ m = cc in rw (← same) (sym (or_option-none (found id acc)))
  collect-found acc (e ∷ es) m id h = elim (Option-cases (found (id_of k e) acc)) [
    | inl new ↦ elim (Result-cases (get_one st k s (id_of k e))) [
      | inl (a, got) ↦
          collect-found ((id_of k e, a) ∷ acc) es m id (sym (collect-new acc e es a new got) ∙ h)
          ∙ found-first acc e es a id new got
      | inr (x, got) ↦ cc (collect-fails acc e es x new got, h)
    ]
    | inr (a, old) ↦
        collect-found acc es m id (sym (collect-old acc e es a old) ∙ h)
        ∙ found-skip acc e es a id old
  ]

  -- What is in the map stays in it.
  found-kept :
      (acc : Found st) (es : List Event) (m : Found st) (id : ℤ) (a : Resource st.Rest)
      → collect st k s acc es ≡ ok m
      → found id acc ≡ some a
      → found id m ≡ some a
  found-kept acc es m id a h there =
      collect-found acc es m id h ∙ ap (λ o. or_option o (asked id es)) there

  found-first_self :
      (acc : Found st) (e : Event) (a : Resource st.Rest)
      → found (id_of k e) ((id_of k e, a) ∷ acc) ≡ some a
  unfolding found
  found-first_self acc e a =
      let same : int_eq (id_of k e) (id_of k e) ≡ true =
        (int_eq_iff (id_of k e) (id_of k e)).1 refl in
      rw same refl

  collect-All :
      (acc : Found st) (es : List Event) (m : Found st)
      → collect st k s acc es ≡ ok m
      → All (λ e. is_some (found (id_of k e) m) ≡ true) es
  collect-All acc [] m h = tt
  collect-All acc (e ∷ es) m h = elim (Option-cases (found (id_of k e) acc)) [
    | inl new ↦ elim (Result-cases (get_one st k s (id_of k e))) [
      | inl (a, got) ↦
          let h' = sym (collect-new acc e es a new got) ∙ h in
          (
            ap is_some (
                found-kept ((id_of k e, a) ∷ acc) es m (id_of k e) a h' (found-first_self acc e a)),
            collect-All ((id_of k e, a) ∷ acc) es m h',
          )
      | inr (x, got) ↦ cc (collect-fails acc e es x new got, h)
    ]
    | inr (a, old) ↦
        let h' = sym (collect-old acc e es a old) ∙ h in
        (ap is_some (found-kept acc es m (id_of k e) a h' old), collect-All acc es m h')
  ]

inside :
    (st : Store) (s : st.State) (name : Text) (r : EventsResponse st)
    → list_events st s name ≡ ok r
    → (collect st artifact s [] r.events ≡ ok r.artifacts)
      × (collect st execution s [] r.events ≡ ok r.executions)
unfolding list_events get_in_events
inside st s name r h =
    let (es, e, h1) = steps-ok (events_of st (kind_named name) s name) _ h in
    let (m, f, h2) = steps-ok (map_err (in_events artifact) (collect st artifact s [] es)) _ h1 in
    let (n, g, h3) = steps-ok (map_err (in_events execution) (collect st execution s [] es)) _ h2 in
    let whole : record { events = es; artifacts = m; executions = n } ≡ r = cc in
    subst
      (λ x.
        (collect st artifact s [] x.events ≡ ok x.artifacts)
        × (collect st execution s [] x.events ≡ ok x.executions))
      whole
      (
        map_err-ok (in_events artifact) (collect st artifact s [] es) f,
        map_err-ok (in_events execution) (collect st execution s [] es) g,
      )

-- Where ListEvents answers, its map of artifacts has exactly the ids of the artifacts in its events,
-- each with what the store gives for that id alone, and its map of executions those of the
-- executions; so every event has its artifact and its execution in them.
pub list_events-found :
    (st : Store) (s : st.State) (name : Text) (r : EventsResponse st) (id : ℤ)
    → list_events st s name ≡ ok r
    → (found id r.artifacts
        ≡ (if occurs artifact id r.events then answer (get_one st artifact s id) else none))
      × (found id r.executions
          ≡ (if occurs execution id r.events then answer (get_one st execution s id) else none))
      × All (λ e. is_some (found e.artifact_id r.artifacts) ≡ true) r.events
      × All (λ e. is_some (found e.execution_id r.executions) ≡ true) r.events
unfolding list_events get_in_events found
list_events-found st s name r id h =
    let (a, x) = inside st s name r h in
    (
      collect-found st artifact s [] r.events r.artifacts id a,
      collect-found st execution s [] r.events r.executions id x,
      collect-All st artifact s [] r.events r.artifacts a,
      collect-All st execution s [] r.events r.executions x,
    )
