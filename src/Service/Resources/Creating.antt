-- ===== src/Service/Resources/Creating.antt =====
-- What creating an artifact or an execution does.
use metadata.Prelude.{ℕ, ◌≡◌, refl, ◌≤◌, ◌++◌, false, [], ◌∷◌, none, some, is_some, ap, ◌∙◌}
use metadata.Prelude.Texts.{Text, starts_with, includes, starts_with-append}
use metadata.Prelude.Results.{ok, err}
use metadata.Service.{Kind, pos, TypeMessage, Resource, Store, malformed_name, types_collection}
use metadata.Service.Names.{trim_prefix}
use metadata.Service.Ids.{name_of, max_int}
use metadata.Service.Ids.Named.{IsInLine, id_in-name_of, drop-append}
use metadata.Service.Ids.Unnamed.{id_in-malformed, starts_with-bare}
use metadata.Service.Types.{get_resource_type}
use metadata.Service.Resources.{get_id, get_one, get_stored, checked, read_back, create}

-- The resource with the id of its type.
abbrev pub typed {ℓ} : {R : Type ℓ} → Resource R → TypeMessage → Resource R
typed r t = record r { type_id = some (get_id t.id) }

module _ (st : Store) (k : Kind) (s : st.State) (r : Resource st.Rest) (t : TypeMessage)
    (n : ℕ) where
  module _ (parent : Text) (unset : r.id ≡ none)
      (found : st.get_type k s (trim_prefix parent (types_collection k)) ≡ ok t)
      (put : (st.put k s (typed r t ∷ [])).1 ≡ ok (pos n ∷ [])) where
    checked-typed : checked st k s parent (some r) ≡ ok (typed r t)
    unfolding checked get_resource_type
    checked-typed =
        let new : is_some r.id ≡ false = ap is_some unset in
        rw (new, checked, found, get_resource_type) refl

    create-written : create st k s parent (some r) ≡ (
      (st.put k s (typed r t ∷ [])).0,
      get_stored st k (st.put k s (typed r t ∷ [])).0 (name_of k parent (pos n)),
    )
    unfolding create read_back
    create-written = rw (checked-typed, create, put) refl

trim_prefix-append : (p u : Text) → trim_prefix (p ++ u) p ≡ u
trim_prefix-append p u = rw starts_with-append (drop-append p u)

trim_prefix-bare :
    (k : Kind) (p : Text)
    → includes (p ++ (b'/' ∷ [])) (types_collection k) ≡ false
    → trim_prefix p (types_collection k) ≡ p
trim_prefix-bare k p h =
    let no : starts_with p (types_collection k) ≡ false =
      starts_with-bare p (types_collection k) (b'/' ∷ []) h in
    rw no refl

-- An artifact or execution without an id that is created under the name of a type that the store has
-- gets that type and is given back as the store has it then, and so it is later under its name, if
-- the store numbers it by a number that an int64 holds. The type's name has no line break.
pub create-get_stored :
    (st : Store) (k : Kind) (s : st.State) (r : Resource st.Rest) (t : TypeMessage) (u : Text)
    (n : ℕ) (a : Resource st.Rest)
    → IsInLine u
    → n ≤ max_int
    → r.id ≡ none
    → st.get_type k s u ≡ ok t
    → (st.put k s (typed r t ∷ [])).1 ≡ ok (pos n ∷ [])
    → st.get_by_id k (st.put k s (typed r t ∷ [])).0 (pos n ∷ []) ≡ ok (a ∷ [])
    → (create st k s (types_collection k ++ u) (some r) ≡ ((st.put k s (typed r t ∷ [])).0, ok a))
      × (get_stored st k
            (st.put k s (typed r t ∷ [])).0
            (name_of k (types_collection k ++ u) (pos n))
          ≡ ok a)
unfolding get_one get_stored
create-get_stored st k s r t u n a line small unset found put got =
    let s' = (st.put k s (typed r t ∷ [])).0 in
    let parent = types_collection k ++ u in
    let read : get_stored st k s' (name_of k parent (pos n)) ≡ ok a =
      rw (id_in-name_of k u n line small, get_stored, got, get_one) refl in
    let found' : st.get_type k s (trim_prefix parent (types_collection k)) ≡ ok t =
      ap (st.get_type k s) (trim_prefix-append (types_collection k) u) ∙ found in
    (create-written st k s r t n parent unset found' put ∙ (λ i. (s', read i)), read)

-- An artifact or execution without an id that is created under the bare name of a type that the store
-- has, with `artifact_types/` or `execution_types/` nowhere in the name, is stored if the store takes
-- it, and yet the creation is answered with an error.
pub create-malformed :
    (st : Store) (k : Kind) (s : st.State) (r : Resource st.Rest) (t : TypeMessage) (parent : Text)
    (n : ℕ)
    → includes (parent ++ (b'/' ∷ [])) (types_collection k) ≡ false
    → r.id ≡ none
    → st.get_type k s parent ≡ ok t
    → (st.put k s (typed r t ∷ [])).1 ≡ ok (pos n ∷ [])
    → create st k s parent (some r)
      ≡ ((st.put k s (typed r t ∷ [])).0, err (malformed_name (name_of k parent (pos n))))
unfolding get_stored
create-malformed st k s r t parent n bare unset found put =
    let s' = (st.put k s (typed r t ∷ [])).0 in
    let read : get_stored st k s' (name_of k parent (pos n))
        ≡ err (malformed_name (name_of k parent (pos n))) =
      rw (id_in-malformed k parent n bare, get_stored) refl in
    let found' : st.get_type k s (trim_prefix parent (types_collection k)) ≡ ok t =
      ap (st.get_type k s) (trim_prefix-bare k parent bare) ∙ found in
    create-written st k s r t n parent unset found' put ∙ (λ i. (s', read i))
