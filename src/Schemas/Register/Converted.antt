-- ===== src/Schemas/Register/Converted.antt =====
-- The properties of a registered type.
use mathlib.Core.Path.{subst}
use metadata.Prelude.{
  ℕ, zero, suc, ◌≡◌, refl, sym, ap, ◌∙◌, Bool, true, false, List, [], ◌∷◌, Option, none, some, All,
  if◌then◌else◌, Bool-cases, Option-cases, inl, inr, arith,
}
use metadata.Prelude.Texts.{Text, text_eq, text_eq_iff}
use metadata.Prelude.Results.{Result, ok, err, lookup, insert, lookup-insert}
use metadata.Service.{PropertyType, int_type, double_type}
use metadata.Service
use metadata.Schemas.{
  PropertyMap, Parent, SchemaSet, SchemaError, SimpleProperties, string_type, integer_type,
  get_type, is_simple, is_simple_type, called, add_simple_properties, put_all, after_member,
  inherit, simple_properties,
}
use metadata.Schemas.Properties.{first_member}
use metadata.Schemas.Agreement.{with_own-some, simple_properties-there, simple_properties-missing}
use metadata.Schemas.Register.{
  is_property_built_in, converted, properties_of, whole_meta_property_name, type_message,
}

-- All types are simple ones.
abbrev AreSimple : SimpleProperties → Type 0
AreSimple = All (λ e. is_simple e.1 ≡ true)

insert-AreSimple :
    (k v : Text) (m : SimpleProperties)
    → is_simple v ≡ true
    → AreSimple m
    → AreSimple (insert k v m)
unfolding insert
insert-AreSimple k v [] h a = (h, tt)
insert-AreSimple k v ((j, w) ∷ m) h a = elim (Bool-cases (text_eq j k)) [
  | inl e ↦ rw e (h, a.1)
  | inr e ↦ rw e (a.0, insert-AreSimple k v m h a.1)
]

add-AreSimple :
    (ps : PropertyMap) (out : SimpleProperties)
    → AreSimple out
    → AreSimple (add_simple_properties ps out)
unfolding add_simple_properties is_simple_type
add-AreSimple [] out a = a
add-AreSimple ((p, sj) ∷ ps) out a = elim (Bool-cases (is_simple_type sj)) [
  | inl e ↦
      rw (e, add_simple_properties)
        (insert-AreSimple p (get_type sj) (add_simple_properties ps out) e (add-AreSimple ps out a))
  | inr e ↦ rw (e, add_simple_properties) (add-AreSimple ps out a)
]

put_all-AreSimple :
    (props result : SimpleProperties)
    → AreSimple props
    → AreSimple result
    → AreSimple (put_all props result)
unfolding put_all
put_all-AreSimple [] result h a = a
put_all-AreSimple ((k, v) ∷ props) result h a =
    insert-AreSimple k v (put_all props result) h.0 (put_all-AreSimple props result h.1 a)

after_member-AreSimple :
    (id : Text) (p : Parent) (c : Option (Option (Result SchemaError SimpleProperties)))
    (acc acc' : SimpleProperties)
    → ((props : SimpleProperties) → c ≡ some (some (ok props)) → AreSimple props)
    → AreSimple acc
    → after_member id p c acc ≡ some (ok acc')
    → AreSimple acc'
after_member-AreSimple id p none acc acc' h a e =
    subst AreSimple (inner e) (add-AreSimple p.properties acc a)
  where
    inner :
        {a b : SimpleProperties}
        → ◌≡◌ {A = Option (Result SchemaError SimpleProperties)} (some (ok a)) (some (ok b))
        → a ≡ b
    inner h = cc
after_member-AreSimple id p (some none) acc acc' h a e = cc
after_member-AreSimple id p (some (some (err x))) acc acc' h a e = cc
after_member-AreSimple id p (some (some (ok props))) acc acc' h a e =
    subst AreSimple (inner e) (
      add-AreSimple p.properties (put_all props acc) (put_all-AreSimple props acc (h props refl) a))
  where
    inner :
        {a b : SimpleProperties}
        → ◌≡◌ {A = Option (Result SchemaError SimpleProperties)} (some (ok a)) (some (ok b))
        → a ≡ b
    inner h = cc

module _ (call : Text → Option (Result SchemaError SimpleProperties))
    (h : (r : Text) (props : SimpleProperties) → call r ≡ some (ok props) → AreSimple props) where
  at_reference :
      (ref : Option Text) (props : SimpleProperties)
      → called call ref ≡ some (some (ok props))
      → AreSimple props
  at_reference none props e = cc
  at_reference (some r) props e = h r props (cc)

  inherit-AreSimple :
      (id : Text) (ps : List Parent) (acc m : SimpleProperties)
      → AreSimple acc
      → inherit call id ps acc ≡ some (ok m)
      → AreSimple m
  unfolding inherit
  inherit-AreSimple id [] acc m a e = let same : acc ≡ m = cc in subst AreSimple same a
  inherit-AreSimple id (p ∷ ps) acc m a e =
      let (acc', one, rest) =
        first_member (after_member id p (called call p.ref) acc) (λ r. inherit call id ps r) e in
      inherit-AreSimple id ps acc' m
        (after_member-AreSimple id p (called call p.ref) acc acc' (at_reference p.ref) a one) rest

simple_properties-AreSimple :
    (fuel : ℕ) (ss : SchemaSet) (id : Text) (m : SimpleProperties)
    → simple_properties fuel ss id ≡ some (ok m)
    → AreSimple m
unfolding simple_properties
simple_properties-AreSimple zero ss id m h = cc
simple_properties-AreSimple (suc fuel) ss id m h = elim (Option-cases (lookup id ss)) [
  | inl missing ↦ cc (simple_properties-missing ss id fuel missing, h)
  | inr (schema, there) ↦
      let (r, inherited, whole) =
        with_own-some schema.properties (inherit (simple_properties fuel ss) id schema.all_of [])
          (sym (simple_properties-there ss id schema there fuel) ∙ h) in
      subst AreSimple whole (
        add-AreSimple schema.properties r (
          inherit-AreSimple (simple_properties fuel ss)
            (λ ref props k. simple_properties-AreSimple fuel ss ref props k) id schema.all_of [] r
            tt inherited))
]

-- The type in the store for the name of a simple type.
abbrev pub property_type_of : Text → PropertyType
property_type_of t =
    if text_eq t string_type
    then Service.string_type
    else if text_eq t integer_type
    then int_type
    else double_type

converted-ok : (name t : Text) → is_simple t ≡ true → converted name t ≡ ok (property_type_of t)
unfolding converted
converted-ok name t h = ground arith

abbrev pub map_option {ℓ κ} : {A : Type ℓ} {B : Type κ} → (A → B) → Option A → Option B
map_option f none = none
map_option f (some a) = some (f a)

properties_of-built_in :
    (name t : Text) (m : SimpleProperties)
    → is_property_built_in name ≡ true
    → properties_of ((name, t) ∷ m) ≡ properties_of m
unfolding properties_of
properties_of-built_in name t m h = rw (h, properties_of) refl

properties_of-insert :
    (name t : Text) (m : SimpleProperties) (ps : List (Text × PropertyType))
    → is_property_built_in name ≡ false
    → is_simple t ≡ true
    → properties_of m ≡ ok ps
    → properties_of ((name, t) ∷ m) ≡ ok (insert name (property_type_of t) ps)
unfolding properties_of
properties_of-insert name t m ps h simple rest =
    rw (h, converted-ok name t simple, rest, properties_of) refl

abbrev Holds : SimpleProperties → List (Text × PropertyType) → Type 0
Holds m ps =
    (q : Text)
    → lookup q ps
      ≡ (if is_property_built_in q then none else map_option property_type_of (lookup q m))

module _ (name t : Text) (m : SimpleProperties) (ps : List (Text × PropertyType)) (h : Holds m ps)
    (q : Text) where
  same_key :
      {b : Bool}
      → text_eq name q ≡ true
      → is_property_built_in name ≡ b
      → is_property_built_in q ≡ b
  same_key e b = ap is_property_built_in (sym ((text_eq_iff name q).0 e)) ∙ b

  skipped :
      is_property_built_in name ≡ true
      → lookup q ps ≡ (
          if is_property_built_in q
          then none
          else map_option property_type_of (lookup q ((name, t) ∷ m)))
  unfolding lookup
  skipped b = elim (Bool-cases (text_eq name q)) [
    | inl e ↦ let bq = same_key e b in h q ∙ rw bq refl
    | inr e ↦ rw e (h q)
  ]

  inserted :
      is_property_built_in name ≡ false
      → lookup q (insert name (property_type_of t) ps) ≡ (
          if is_property_built_in q
          then none
          else map_option property_type_of (lookup q ((name, t) ∷ m)))
  unfolding lookup
  inserted b = elim (Bool-cases (text_eq name q)) [
    | inl e ↦
        let bq = same_key e b in lookup-insert name q (property_type_of t) ps ∙ rw (e, bq) refl
    | inr e ↦ lookup-insert name q (property_type_of t) ps ∙ rw e (h q)
  ]

properties_of-Holds :
    (m : SimpleProperties)
    → AreSimple m
    → (ps : List (Text × PropertyType)) × (properties_of m ≡ ok ps) × Holds m ps
unfolding properties_of lookup
properties_of-Holds [] a = (
  [],
  refl,
  λ q. elim (Bool-cases (is_property_built_in q)) [ inl e ↦ rw e refl | inr e ↦ rw e refl ],
)
properties_of-Holds ((name, t) ∷ m) a =
    let (ps, e, h) = properties_of-Holds m a.1 in
    elim (Bool-cases (is_property_built_in name)) [
      | inl b ↦ (ps, properties_of-built_in name t m b ∙ e, λ q. skipped name t m ps h q b)
      | inr b ↦ (
        insert name (property_type_of t) ps,
        properties_of-insert name t m ps b a.0 e,
        λ q. inserted name t m ps h q b,
      )
    ]

-- The simple properties of a schema are always turned into properties of a type, so that the internal
-- error for an unknown type does not occur. The registered type has under a name the property that
-- holds the whole of the data if that is the name, none if the name is built in, and else the simple
-- property of the schema with that name, if there is one, with its type: string, int or double.
pub registered-properties :
    (fuel : ℕ) (ss : SchemaSet) (id name q : Text) (m : SimpleProperties)
    → simple_properties fuel ss id ≡ some (ok m)
    → (ps : List (Text × PropertyType)) × (properties_of m ≡ ok ps)
      × (lookup q (type_message name ps).properties ≡ (
          if text_eq whole_meta_property_name q
          then some Service.string_type
          else if is_property_built_in q
          then none
          else map_option property_type_of (lookup q m)))
registered-properties fuel ss id name q m h =
    let (ps, e, k) = properties_of-Holds m (simple_properties-AreSimple fuel ss id m h) in
    (
      ps,
      e,
      lookup-insert whole_meta_property_name q Service.string_type ps
          ∙ ap (λ o. if text_eq whole_meta_property_name q then some Service.string_type else o)
              (k q),
    )
