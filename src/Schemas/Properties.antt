-- ===== src/Schemas/Properties.antt =====
-- The simple properties of a schema, and the types of its properties.
use mathlib.Core.Path.{subst}
use metadata.Prelude.{
  ◌≡◌, refl, sym, ap, ◌∙◌, true, false, List, [], ◌∷◌, Option, none, some, Bool-cases, inl, inr,
  arith,
}
use metadata.Prelude.Texts.{Text, text_eq}
use metadata.Prelude.Results.{Result, ok, err, lookup, insert, lookup-insert}
use metadata.Schemas.{
  Property, PropertyMap, Parent, SchemaError, SimpleProperties, get_type, is_simple_type, called,
  in_member, or_member, search, add_simple_properties, put_all, after_member, inherit,
}

abbrev or_option {ℓ} : {A : Type ℓ} → Option A → Option A → Option A
or_option none b = b
or_option (some a) b = some a

pub first_member :
    (x : Option (Result SchemaError SimpleProperties))
    (next : SimpleProperties → Option (Result SchemaError SimpleProperties)) {m : SimpleProperties}
    → elim x [ none ↦ none | some (err e) ↦ some (err e) | some (ok r) ↦ next r ] ≡ some (ok m)
    → (r : SimpleProperties) × (x ≡ some (ok r)) × (next r ≡ some (ok m))
first_member none next h = cc
first_member (some (err e)) next h = cc
first_member (some (ok r)) next h = (r, refl, h)

module _ (name : Text) where
  lookup-insert_other :
      {V : Type 0} (k : Text) (v : V) (m : List (Text × V))
      → text_eq k name ≡ false
      → lookup name (insert k v m) ≡ lookup name m
  lookup-insert_other k v m h = lookup-insert k name v m ∙ rw h refl

  pub lookup-add_none :
      (ps : PropertyMap) (out : SimpleProperties)
      → lookup name ps ≡ none
      → lookup name (add_simple_properties ps out) ≡ lookup name out
  unfolding lookup add_simple_properties
  lookup-add_none [] out h = refl
  lookup-add_none ((p, sj) ∷ ps) out h =
      let other : text_eq p name ≡ false = ground arith in
      let rest = lookup-add_none ps out (ground arith) in
      elim (Bool-cases (is_simple_type sj)) [
        | inl e ↦
            rw (e, add_simple_properties)
              (lookup-insert_other p (get_type sj) (add_simple_properties ps out) other ∙ rest)
        | inr e ↦ rw (e, add_simple_properties) rest
      ]

  pub lookup-here :
      {V : Type 0} (p : Text) (v : V) (m : List (Text × V))
      → text_eq p name ≡ true
      → lookup name ((p, v) ∷ m) ≡ some v
  unfolding lookup
  lookup-here p v m h = rw h refl

  pub lookup-later :
      {V : Type 0} (p : Text) (v : V) (m : List (Text × V))
      → text_eq p name ≡ false
      → lookup name ((p, v) ∷ m) ≡ lookup name m
  unfolding lookup
  lookup-later p v m h = rw h refl

  pub lookup-add_some :
      (ps : PropertyMap) (out : SimpleProperties) (sj : Property)
      → lookup name ps ≡ some sj
      → is_simple_type sj ≡ true
      → lookup name (add_simple_properties ps out) ≡ some (get_type sj)
  unfolding lookup add_simple_properties
  lookup-add_some [] out sj h e = cc
  lookup-add_some ((p, s) ∷ ps) out sj h e = elim (Bool-cases (text_eq p name)) [
    | inl same ↦
        let whole : s ≡ sj = cc (lookup-here p s ps same, h) in
        let simple : is_simple_type s ≡ true = ap is_simple_type whole ∙ e in
        rw (simple, add_simple_properties)
          (lookup-insert p name (get_type s) (add_simple_properties ps out)
            ∙ rw same (ap (λ t. some (get_type t)) whole))
    | inr other ↦
        let rest = lookup-add_some ps out sj (sym (lookup-later p s ps other) ∙ h) e in
        elim (Bool-cases (is_simple_type s)) [
          | inl f ↦
              rw (f, add_simple_properties)
                (lookup-insert_other p (get_type s) (add_simple_properties ps out) other ∙ rest)
          | inr f ↦ rw (f, add_simple_properties) rest
        ]
  ]

  lookup-put_all :
      (props result : SimpleProperties)
      → lookup name (put_all props result) ≡ or_option (lookup name props) (lookup name result)
  unfolding lookup put_all
  lookup-put_all [] result = refl
  lookup-put_all ((k, v) ∷ props) result = elim (Bool-cases (text_eq k name)) [
    | inl same ↦ lookup-insert k name v (put_all props result) ∙ rw same refl
    | inr other ↦
        lookup-insert k name v (put_all props result) ∙ rw other (lookup-put_all props result)
  ]

  inner :
      {a b : SimpleProperties}
      → ◌≡◌ {A = Option (Result SchemaError SimpleProperties)} (some (ok a)) (some (ok b))
      → a ≡ b
  inner h = cc

  -- A property's type and the simple properties: they agree on simple types, and a property that is
  -- not found is not among the simple ones.
  abbrev pub Agrees : Option (Result SchemaError Property) → SimpleProperties → Type 0
  Agrees none m = Unit {0}
  Agrees (some (ok sj)) m = is_simple_type sj ≡ true → lookup name m ≡ some (get_type sj)
  Agrees (some (err e)) m = lookup name m ≡ none

  -- The same in the midst of the loop, with what was there before.
  abbrev pub After :
      Option (Result SchemaError Property) → SimpleProperties → SimpleProperties → Type 0
  After none acc m = Unit {0}
  After (some (ok sj)) acc m = is_simple_type sj ≡ true → lookup name m ≡ some (get_type sj)
  After (some (err e)) acc m = lookup name m ≡ lookup name acc

  -- The two functions at the member's reference, which agree.
  abbrev Referred :
      Option (Option (Result SchemaError Property))
      → Option (Option (Result SchemaError SimpleProperties))
      → Type 0
  Referred none none = Unit {0}
  Referred (some pt) (some sp) = (props : SimpleProperties) → sp ≡ some (ok props) → Agrees pt props
  Referred _ _ = ⊥

  -- The own properties of a member, put over what its reference has given.
  own-After :
      (p : Parent) (own : Option Property) (acc base : SimpleProperties) (e : SchemaError)
      (pt : Option (Option (Result SchemaError Property)))
      → lookup name p.properties ≡ own
      → After (in_member none pt e) acc base
      → After (in_member own pt e) acc (add_simple_properties p.properties base)
  own-After p (some sj) acc base e pt h k = λ simple. lookup-add_some p.properties base sj h simple
  own-After p none acc base e none h k = lookup-add_none p.properties base h ∙ k
  own-After p none acc base e (some none) h k = tt
  own-After p none acc base e (some (some (ok sj))) h k =
      λ simple. lookup-add_none p.properties base h ∙ k simple
  own-After p none acc base e (some (some (err x))) h k = lookup-add_none p.properties base h ∙ k

  put_all-After :
      (props acc : SimpleProperties) (e : SchemaError) (pt : Option (Result SchemaError Property))
      → Agrees pt props
      → After (in_member none (some pt) e) acc (put_all props acc)
  put_all-After props acc e none h = tt
  put_all-After props acc e (some (ok sj)) h =
      λ simple. lookup-put_all props acc ∙ ap (λ o. or_option o (lookup name acc)) (h simple)
  put_all-After props acc e (some (err x)) h =
      lookup-put_all props acc ∙ ap (λ o. or_option o (lookup name acc)) h

  -- One member, from what the two functions give for it.
  member-After :
      (id : Text) (p : Parent) (pt : Option (Option (Result SchemaError Property)))
      (sp : Option (Option (Result SchemaError SimpleProperties))) (acc acc' : SimpleProperties)
      (e : SchemaError)
      → Referred pt sp
      → after_member id p sp acc ≡ some (ok acc')
      → After (in_member (lookup name p.properties) pt e) acc acc'
  member-After id p none none acc acc' e r h =
      subst (After (in_member (lookup name p.properties) none e) acc) (inner h)
        (own-After p (lookup name p.properties) acc acc e none refl refl)
  member-After id p (some pt) (some (some (ok props))) acc acc' e r h =
      subst (After (in_member (lookup name p.properties) (some pt) e) acc) (inner h) (
        own-After p (lookup name p.properties) acc (put_all props acc) e (some pt) refl
          (put_all-After props acc e pt (r props refl)))
  member-After id p (some pt) (some (some (err x))) acc acc' e r h = cc
  member-After id p (some pt) (some none) acc acc' e r h = cc
  member-After id p none (some sp) acc acc' e r h = absurd r
  member-After id p (some pt) none acc acc' e r h = absurd r

  -- Members before one that has the property, or that has it by reference, do not matter.
  or_member-After :
      (s : Option (Result SchemaError Property)) (own : Option Property)
      (pt : Option (Option (Result SchemaError Property))) (acc acc' m : SimpleProperties)
      → After s acc' m
      → ((e : SchemaError) → After (in_member own pt e) acc acc')
      → After (or_member s own pt) acc m
  or_member-After none own pt acc acc' m h k = tt
  or_member-After (some (ok sj)) own pt acc acc' m h k = h
  or_member-After (some (err e)) own pt acc acc' m h k = through (in_member own pt e) (k e)
    where
      through : (o : Option (Result SchemaError Property)) → After o acc acc' → After o acc m
      through none q = tt
      through (some (ok sj)) q = λ simple. h ∙ q simple
      through (some (err x)) q = h ∙ q

  module _ (pt : Text → Option (Result SchemaError Property))
      (sp : Text → Option (Result SchemaError SimpleProperties))
      (agree : (r : Text) (props : SimpleProperties)
        → sp r ≡ some (ok props)
        → Agrees (pt r) props) where
    called-Referred : (ref : Option Text) → Referred (called pt ref) (called sp ref)
    called-Referred none = tt
    called-Referred (some r) = agree r

    pub inherit-After :
        (id : Text) (ps : List Parent) (acc m : SimpleProperties)
        → inherit sp id ps acc ≡ some (ok m)
        → After (search pt id name ps) acc m
    unfolding inherit search
    inherit-After id [] acc m h = let same : acc ≡ m = cc in ap (lookup name) (sym same)
    inherit-After id (p ∷ ps) acc m h =
        let (acc', one, rest) =
          first_member (after_member id p (called sp p.ref) acc) (λ r. inherit sp id ps r) h in
        or_member-After (search pt id name ps) (lookup name p.properties) (called pt p.ref) acc acc'
          m (inherit-After id ps acc' m rest)
          (λ e.
            member-After id p (called pt p.ref) (called sp p.ref) acc acc' e (called-Referred p.ref)
              one)
