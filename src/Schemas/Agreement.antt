-- ===== src/Schemas/Agreement.antt =====
-- The simple properties of a schema against the types of its properties.
use mathlib.Core.Path.{subst}
use metadata.Prelude.{
  ℕ, zero, suc, ◌≡◌, refl, sym, ap, ◌∙◌, Bool, true, [], Option, none, some, Option-cases, inl, inr,
}
use metadata.Prelude.Texts.{Text}
use metadata.Prelude.Results.{Result, ok, err, lookup}
use metadata.Schemas.{
  Property, PropertyMap, SchemaJson, SchemaSet, SchemaError, no_schema, SimpleProperties, get_type,
  is_simple_type, search, property_type, add_simple_properties, inherit, with_own,
  simple_properties,
}
use metadata.Schemas.Properties.{Agrees, After, inherit-After, lookup-add_none, lookup-add_some}

pub with_own-some :
    (ps : PropertyMap) (x : Option (Result SchemaError SimpleProperties)) {m : SimpleProperties}
    → with_own ps x ≡ some (ok m)
    → (r : SimpleProperties) × (x ≡ some (ok r)) × (add_simple_properties ps r ≡ m)
with_own-some ps none h = cc
with_own-some ps (some (err e)) h = cc
with_own-some ps (some (ok r)) h = (r, refl, cc)

of_none :
    (name : Text) (o : Option (Result SchemaError Property)) (r m : SimpleProperties)
    → lookup name m ≡ lookup name r
    → After name o [] r
    → Agrees name o m
unfolding lookup
of_none name none r m e h = tt
of_none name (some (ok sj)) r m e h = λ simple. e ∙ h simple
of_none name (some (err x)) r m e h = e ∙ h

module _ (ss : SchemaSet) (id : Text) (schema : SchemaJson)
    (there : lookup id ss ≡ some schema) where
  pub simple_properties-there :
      (g : ℕ)
      → simple_properties (suc g) ss id
        ≡ with_own schema.properties (inherit (simple_properties g ss) id schema.all_of [])
  unfolding simple_properties
  simple_properties-there g = rw (there, simple_properties) refl

  pub property_type-own :
      (f : ℕ) (name : Text) (sj : Property)
      → lookup name schema.properties ≡ some sj
      → property_type (suc f) ss id name ≡ some (ok sj)
  unfolding property_type
  property_type-own f name sj h = rw (there, property_type, h) refl

  pub property_type-inherited :
      (f : ℕ) (name : Text)
      → lookup name schema.properties ≡ none
      → property_type (suc f) ss id name
        ≡ search (λ r. property_type f ss r name) id name schema.all_of
  unfolding property_type
  property_type-inherited f name h = rw (there, property_type, h) refl

pub simple_properties-missing :
    (ss : SchemaSet) (id : Text) (g : ℕ)
    → lookup id ss ≡ none
    → simple_properties (suc g) ss id ≡ some (err (no_schema id))
unfolding simple_properties
simple_properties-missing ss id g missing = rw (missing, simple_properties) refl

Agrees-lem :
    (f g : ℕ) (ss : SchemaSet) (id name : Text) (m : SimpleProperties)
    → simple_properties g ss id ≡ some (ok m)
    → Agrees name (property_type f ss id name) m
unfolding simple_properties property_type
Agrees-lem zero g ss id name m h = tt
Agrees-lem (suc f) zero ss id name m h = cc
Agrees-lem (suc f) (suc g) ss id name m h = elim (Option-cases (lookup id ss)) [
  | inl missing ↦ cc (simple_properties-missing ss id g missing, h)
  | inr (schema, there) ↦
      let (r, inherited, whole) =
        with_own-some schema.properties (inherit (simple_properties g ss) id schema.all_of [])
          (sym (simple_properties-there ss id schema there g) ∙ h) in
      elim (Option-cases (lookup name schema.properties)) [
        | inl other ↦
            subst (λ o. Agrees name o m)
              (sym (property_type-inherited ss id schema there f name other))
              (of_none name (search (λ r. property_type f ss r name) id name schema.all_of) r m
                (ap (lookup name) (sym whole) ∙ lookup-add_none name schema.properties r other)
                (inherit-After name (λ r. property_type f ss r name) (simple_properties g ss)
                  (λ ref props k. Agrees-lem f g ss ref name props k) id schema.all_of [] r
                  inherited))
        | inr (sj, own) ↦
            subst (λ o. Agrees name o m) (sym (property_type-own ss id schema there f name sj own))
              (λ simple.
                ap (lookup name) (sym whole)
                ∙ lookup-add_some name schema.properties r sj own simple)
      ]
]

-- Not found, or found with a simple type.
abbrev pub is_settled : Result SchemaError Property → Bool
is_settled (err e) = true
is_settled (ok sj) = is_simple_type sj

abbrev pub type_in : Result SchemaError Property → Option Text
type_in (err e) = none
type_in (ok sj) = some (get_type sj)

-- Where SimpleProperties and PropertyType both answer for a schema, a name has among the simple
-- properties the type that PropertyType finds for it, if that is a simple type, and it is not among
-- them if PropertyType does not find it.
pub simple_properties-agree :
    (f g : ℕ) (ss : SchemaSet) (id name : Text) (m : SimpleProperties)
    (r : Result SchemaError Property)
    → simple_properties g ss id ≡ some (ok m)
    → property_type f ss id name ≡ some r
    → is_settled r ≡ true
    → lookup name m ≡ type_in r
simple_properties-agree f g ss id name m r h k settled =
    at r settled (subst (λ o. Agrees name o m) k (Agrees-lem f g ss id name m h))
  where
    at :
        (r : Result SchemaError Property)
        → is_settled r ≡ true
        → Agrees name (some r) m
        → lookup name m ≡ type_in r
    at (ok sj) q a = a q
    at (err e) q a = a
