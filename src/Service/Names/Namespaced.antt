-- ===== src/Service/Names/Namespaced.antt =====
-- What getNamespacedName accepts and gives.
use metadata.Prelude.{◌≡◌, refl, true, false, [], ◌∷◌, ◌++◌, none, some, arith, ◌==◌}
use metadata.Prelude.Texts.{Text}
use metadata.Prelude.Results.{ok}
use metadata.Value.{is_empty}
use metadata.Service.Names.{
  no_space_or_slash, valid_type_name, valid_namespace, split_last, namespace_of,
  get_namespaced_name,
}

split_last-plain : (s : Text) → no_space_or_slash s ≡ true → split_last s ≡ (none, s)
unfolding split_last no_space_or_slash
split_last-plain [] h = refl
split_last-plain (c ∷ s) h =
    let ih = split_last-plain s (ground arith) in
    let slash : (c == b'/') ≡ false = ground arith in rw (ih, slash) refl

split_last-append :
    (ns name : Text)
    → split_last name ≡ (none, name)
    → split_last (ns ++ (b'/' ∷ name)) ≡ (some ns, name)
unfolding split_last
split_last-append [] name h = rw h refl
split_last-append (c ∷ ns) name h = rw (split_last-append ns name h) refl

no_space_or_slash-name : (s : Text) → valid_type_name s ≡ true → no_space_or_slash s ≡ true
unfolding valid_type_name no_space_or_slash
no_space_or_slash-name [] h = cc
no_space_or_slash-name (c ∷ s) h = ground arith

not-empty : (s : Text) → valid_type_name s ≡ true → is_empty s ≡ false
unfolding valid_type_name
not-empty [] h = cc
not-empty (c ∷ s) h = refl

-- The parts of a name that is accepted, and why it is.
parts :
    (n r : Text)
    → get_namespaced_name n ≡ ok r
    → (valid_namespace (namespace_of (split_last n).0) ≡ true)
      × (valid_type_name (split_last n).1 ≡ true)
      × (r ≡ namespace_of (split_last n).0 ++ (b'/' ∷ (split_last n).1))
unfolding get_namespaced_name
parts n r h = ground arith

-- A name that getNamespacedName gives is a valid namespace, a slash and a valid type name, and it
-- gives that name for itself again.
get_namespaced_name-again :
    (n r : Text)
    → get_namespaced_name n ≡ ok r
    → ((ns : Text) × (name : Text) × (valid_namespace ns ≡ true)
        × (valid_type_name name ≡ true)
        × (r ≡ ns ++ (b'/' ∷ name)))
      × (get_namespaced_name r ≡ ok r)
unfolding get_namespaced_name
get_namespaced_name-again n r h =
    let (v, t, e) = parts n r h in
    let ns = namespace_of (split_last n).0 in
    let name = (split_last n).1 in
    let s : split_last (ns ++ (b'/' ∷ name)) ≡ (some ns, name) =
      split_last-append ns name (split_last-plain name (no_space_or_slash-name name t)) in
    ((ns, name, v, t, e), rw (e, s, not-empty name t, v, t) refl)
