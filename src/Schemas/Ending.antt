-- ===== src/Schemas/Ending.antt =====
-- When the recursion over references ends.
use mathlib.Core.Path.{subst}
use metadata.Prelude.{
  ℕ, zero, suc, ◌≡◌, ◌<◌, ◌≤◌, refl, sym, ap, ◌∙◌, true, List, [], ◌∷◌, Option, none, some, is_some,
  All, Option-cases, Bool-cases, inl, inr, arith,
}
use metadata.Prelude.Texts.{Text, text_eq, text_eq_iff}
use metadata.Prelude.Results.{Result, ok, err, lookup}
use metadata.Schemas.{
  Property, Parent, SchemaJson, SchemaSet, SchemaError, SimpleProperties, called, or_member, search,
  property_type, after_member, inherit, with_own, simple_properties,
}
use metadata.Schemas.Properties.{lookup-here, lookup-later}
use metadata.Schemas.Agreement.{simple_properties-there, property_type-own, property_type-inherited}

-- A reference leads to a lower rank.
abbrev pub IsBelow : (Text → ℕ) → ℕ → Option Text → Type 0
IsBelow rank n none = Unit {0}
IsBelow rank n (some r) = rank r < n

-- References lead from each schema to schemas of lower rank only: they make no circle.
abbrev pub IsAcyclic : (Text → ℕ) → SchemaSet → Type 0
IsAcyclic rank [] = Unit {0}
IsAcyclic rank ((id, schema) ∷ ss) =
    All (λ p. IsBelow rank (rank id) p.ref) schema.all_of × IsAcyclic rank ss

lookup-IsAcyclic :
    (rank : Text → ℕ) (ss : SchemaSet) (id : Text) (schema : SchemaJson)
    → IsAcyclic rank ss
    → lookup id ss ≡ some schema
    → All (λ p. IsBelow rank (rank id) p.ref) schema.all_of
unfolding lookup
lookup-IsAcyclic rank [] id schema h e = cc
lookup-IsAcyclic rank ((j, s) ∷ ss) id schema h e = elim (Bool-cases (text_eq j id)) [
  | inl same ↦
      let key : j ≡ id = (text_eq_iff j id).0 same in
      let whole : s ≡ schema = cc (lookup-here id j s ss same, e) in
      subst (λ x. All (λ p. IsBelow rank (rank id) p.ref) x.all_of) whole
        (subst (λ k. All (λ p. IsBelow rank (rank k) p.ref) s.all_of) key h.0)
  | inr other ↦ lookup-IsAcyclic rank ss id schema h.1 (sym (lookup-later id j s ss other) ∙ e)
]

abbrev Answers {ℓ} : {A : Type ℓ} → Option A → Type 0
Answers o = is_some o ≡ true

abbrev Called {ℓ} : {A : Type ℓ} → Option (Option A) → Type 0
Called none = Unit {0}
Called (some o) = Answers o

or_member-Answers :
    (s : Option (Result SchemaError Property)) (own : Option Property)
    (r : Option (Option (Result SchemaError Property)))
    → Answers s
    → Called r
    → Answers (or_member s own r)
or_member-Answers none own r s c = s
or_member-Answers (some (ok sj)) own r s c = refl
or_member-Answers (some (err e)) (some sj) r s c = refl
or_member-Answers (some (err e)) none none s c = refl
or_member-Answers (some (err e)) none (some none) s c = c
or_member-Answers (some (err e)) none (some (some (ok sj))) s c = refl
or_member-Answers (some (err e)) none (some (some (err x))) s c = refl

after_member-Answers :
    (id : Text) (p : Parent) (r : Option (Option (Result SchemaError SimpleProperties)))
    (acc : SimpleProperties)
    → Called r
    → Answers (after_member id p r acc)
after_member-Answers id p none acc c = refl
after_member-Answers id p (some none) acc c = c
after_member-Answers id p (some (some (ok sj))) acc c = refl
after_member-Answers id p (some (some (err x))) acc c = refl

module _ {A : Type 0} (call : Text → Option A) where
  called-Called :
      (rank : Text → ℕ) (n : ℕ)
      → ((r : Text) → rank r < n → Answers (call r))
      → (ref : Option Text) → IsBelow rank n ref
      → Called (called call ref)
  called-Called rank n h none b = tt
  called-Called rank n h (some r) b = h r b

search-Answers :
    (call : Text → Option (Result SchemaError Property)) (id name : Text) (ps : List Parent)
    → All (λ p. Called (called call p.ref)) ps
    → Answers (search call id name ps)
unfolding search
search-Answers call id name [] h = refl
search-Answers call id name (p ∷ ps) h =
    or_member-Answers (search call id name ps) (lookup name p.properties) (called call p.ref)
      (search-Answers call id name ps h.1) h.0

inherit-Answers :
    (call : Text → Option (Result SchemaError SimpleProperties)) (id : Text) (ps : List Parent)
    (acc : SimpleProperties)
    → All (λ p. Called (called call p.ref)) ps
    → Answers (inherit call id ps acc)
unfolding inherit
inherit-Answers call id [] acc h = refl
inherit-Answers call id (p ∷ ps) acc h =
    go (after_member id p (called call p.ref) acc)
      (after_member-Answers id p (called call p.ref) acc h.0)
      (λ r. inherit-Answers call id ps r h.1)
  where
    go :
        (x : Option (Result SchemaError SimpleProperties))
        → Answers x
        → ((r : SimpleProperties) → Answers (inherit call id ps r))
        → Answers (elim x [
          | none ↦ none
          | some (err e) ↦ some (err e)
          | some (ok r) ↦ inherit call id ps r
        ])
    go none a k = a
    go (some (err e)) a k = refl
    go (some (ok r)) a k = k r

All-map :
    {P Q : Parent → Type 0} (ps : List Parent) → ((p : Parent) → P p → Q p) → All P ps → All Q ps
All-map [] f h = tt
All-map (p ∷ ps) f h = (f p h.0, All-map ps f h.1)

module _ (rank : Text → ℕ) (ss : SchemaSet) (acyclic : IsAcyclic rank ss) where
  members :
      {A : Type 0} (call : Text → Option A) (n : ℕ) (id : Text) (schema : SchemaJson)
      → lookup id ss ≡ some schema
      → rank id ≤ n
      → ((r : Text) → rank r < n → Answers (call r))
      → All (λ p. Called (called call p.ref)) schema.all_of
  members call n id schema there le h =
      All-map schema.all_of
        (λ p b. called-Called call rank (rank id) (λ r k. h r (omega arith)) p.ref b)
        (lookup-IsAcyclic rank ss id schema acyclic there)

  property_type-Answers :
      (f : ℕ) (id name : Text) → rank id < f → Answers (property_type f ss id name)
  unfolding property_type
  property_type-Answers zero id name h = elim h [ ]
  property_type-Answers (suc f) id name h = elim (Option-cases (lookup id ss)) [
    | inl missing ↦ rw (missing, property_type) refl
    | inr (schema, there) ↦ elim (Option-cases (lookup name schema.properties)) [
      | inr (sj, own) ↦ ap is_some (property_type-own ss id schema there f name sj own)
      | inl other ↦
          ap is_some (property_type-inherited ss id schema there f name other)
          ∙ search-Answers (λ r. property_type f ss r name) id name schema.all_of
              (members (λ r. property_type f ss r name) f id schema there (omega arith)
                (λ r k. property_type-Answers f r name k))
    ]
  ]

  with_own-Answers :
      (ps : List (Text × Property)) (x : Option (Result SchemaError SimpleProperties))
      → Answers x
      → Answers (with_own ps x)
  with_own-Answers ps none h = h
  with_own-Answers ps (some (ok r)) h = refl
  with_own-Answers ps (some (err e)) h = refl

  simple_properties-Answers :
      (f : ℕ) (id : Text) → rank id < f → Answers (simple_properties f ss id)
  unfolding simple_properties
  simple_properties-Answers zero id h = elim h [ ]
  simple_properties-Answers (suc f) id h = elim (Option-cases (lookup id ss)) [
    | inl missing ↦ rw (missing, simple_properties) refl
    | inr (schema, there) ↦
        ap is_some (simple_properties-there ss id schema there f)
        ∙ with_own-Answers schema.properties (inherit (simple_properties f ss) id schema.all_of [])
            (inherit-Answers (simple_properties f ss) id schema.all_of [] (
              members (simple_properties f ss) f id schema there (omega arith)
                (λ r k. simple_properties-Answers f r k)))
  ]

-- In a set of schemas whose references make no circle, SimpleProperties and PropertyType end for every
-- schema, after as many calls in one another as its rank and one more.
pub simple_properties-ends :
    (rank : Text → ℕ) (ss : SchemaSet) (id name : Text) (fuel : ℕ)
    → IsAcyclic rank ss
    → rank id < fuel
    → (is_some (simple_properties fuel ss id) ≡ true)
      × (is_some (property_type fuel ss id name) ≡ true)
simple_properties-ends rank ss id name fuel acyclic h = (
  simple_properties-Answers rank ss acyclic fuel id h,
  property_type-Answers rank ss acyclic fuel id name h,
)

-- A schema whose first member of `AllOf` refers to the schema itself makes SimpleProperties call itself
-- without end: no number of calls suffices.
pub simple_properties-loops :
    (ss : SchemaSet) (id : Text) (schema : SchemaJson) (p : Parent) (ps : List Parent) (fuel : ℕ)
    → lookup id ss ≡ some schema
    → schema.all_of ≡ p ∷ ps
    → p.ref ≡ some id
    → simple_properties fuel ss id ≡ none
unfolding simple_properties inherit
simple_properties-loops ss id schema p ps zero there members itself = refl
simple_properties-loops ss id schema p ps (suc fuel) there members itself =
    let again = simple_properties-loops ss id schema p ps fuel there members itself in
    let at_itself : called (simple_properties fuel ss) p.ref ≡ some none =
      ap (called (simple_properties fuel ss)) itself ∙ ap some again in
    let stuck : inherit (simple_properties fuel ss) id (p ∷ ps) [] ≡ none =
      rw (at_itself, inherit) refl in
    simple_properties-there ss id schema there fuel
    ∙ ap (λ xs. with_own schema.properties (inherit (simple_properties fuel ss) id xs [])) members
    ∙ ap (with_own schema.properties) stuck
