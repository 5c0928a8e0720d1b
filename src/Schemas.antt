-- ===== src/Schemas.antt =====
-- schemaparser/schemajson.go and schemaparser/schemaset.go: schemas and the properties that they have
-- by themselves and from the schemas that they refer to. Go's maps are association lists, which the
-- code runs through in no fixed order. What the code does not read of a schema is left out, and so
-- are the compiled validators. The two recursive functions follow references for as long as there
-- are any: they run on fuel here, and give nothing when it runs out.
pub mod Properties
pub mod Agreement
pub mod Ending
pub mod Register
pub mod Loading
use metadata.Prelude.{
  ℕ, zero, suc, Bool, ◌||◌, List, [], ◌∷◌, ◌++◌, Option, none, some, if◌then◌else◌,
}
use metadata.Prelude.Texts.{Text, text, text_eq}
use metadata.Prelude.Results.{Result, ok, err, ◌>>=◌, lookup, insert}
use metadata.Value.{is_empty}

-- The field `Type`: absent, a string, or something else.
pub data JsonType : Type 0 where
  no_type other_type : JsonType
  named : Text → JsonType

-- `SchemaJSON`, as far as a property is read.
pub record Property : Type 0 where
  pub type : JsonType
  pub constant : Text

abbrev pub PropertyMap : Type 0
PropertyMap = List (Text × Property)

-- A member of `AllOf`.
pub record Parent : Type 0 where
  pub ref : Option Text
  pub properties : PropertyMap

pub record SchemaJson : Type 0 where
  pub properties : PropertyMap
  pub all_of : List Parent

-- `SchemaSet`: the schemas by their ids.
abbrev pub SchemaSet : Type 0
SchemaSet = List (Text × SchemaJson)

pub data SchemaError : Type 0 where
  no_schema : Text → SchemaError
  no_property : (name id : Text) → SchemaError
  not_constant : (name id : Text) → SchemaError
  unresolved : (ref : Option Text) → (id : Text) → SchemaError → SchemaError

abbrev pub string_type : Text
string_type = text "string"

abbrev pub integer_type : Text
integer_type = text "integer"

abbrev pub number_type : Text
number_type = text "number"

unfoldable pub get_type : Property → Text
get_type sj = elim sj.type [ no_type ↦ text "object" | other_type ↦ text "object" | named t ↦ t ]

abbrev pub is_simple : Text → Bool
is_simple t = text_eq t string_type || text_eq t integer_type || text_eq t number_type

-- `IsSimpleType`.
unfoldable pub is_simple_type : Property → Bool
unfolding get_type
is_simple_type sj = is_simple (get_type sj)

-- The function itself at a reference, if there is one.
abbrev pub called {ℓ} : {A : Type ℓ} → (Text → A) → Option Text → Option A
called call none = none
called call (some r) = some (call r)

-- A member of `AllOf`: its own property, or else that of its reference, whose errors are passed over.
abbrev pub in_member :
    Option Property
    → Option (Option (Result SchemaError Property))
    → SchemaError
    → Option (Result SchemaError Property)
in_member (some sj) referred e = some (ok sj)
in_member none none e = some (err e)
in_member none (some none) e = none
in_member none (some (some (ok sj))) e = some (ok sj)
in_member none (some (some (err _))) e = some (err e)

-- A member is looked at when those after it do not have the property.
abbrev pub or_member :
    Option (Result SchemaError Property)
    → Option Property
    → Option (Option (Result SchemaError Property))
    → Option (Result SchemaError Property)
or_member none own referred = none
or_member (some (ok sj)) own referred = some (ok sj)
or_member (some (err e)) own referred = in_member own referred e

-- The loop of `PropertyType` over `AllOf`, from its end.
unfoldable pub search :
    (Text → Option (Result SchemaError Property))
    → Text
    → Text
    → List Parent
    → Option (Result SchemaError Property)
unfolding lookup
search call id name [] = some (err (no_property name id))
search call id name (p ∷ ps) =
    or_member (search call id name ps) (lookup name p.properties) (called call p.ref)

-- `PropertyType`.
unfoldable pub property_type : ℕ → SchemaSet → Text → Text → Option (Result SchemaError Property)
unfolding search
property_type zero ss id name = none
property_type (suc fuel) ss id name = elim (lookup id ss) [
  | none ↦ some (err (no_schema id))
  | some schema ↦ elim (lookup name schema.properties) [
    | some sj ↦ some (ok sj)
    | none ↦ search (λ r. property_type fuel ss r name) id name schema.all_of
  ]
]

-- `SimpleProperties`, the type: names of types by names of properties.
abbrev pub SimpleProperties : Type 0
SimpleProperties = List (Text × Text)

-- `addSimpleProperties`. The order of a map's keys is free, and this one begins with the last.
unfoldable pub add_simple_properties : PropertyMap → SimpleProperties → SimpleProperties
unfolding insert is_simple_type
add_simple_properties [] output = output
add_simple_properties ((p, sj) ∷ properties) output =
    let rest = add_simple_properties properties output in
    if is_simple_type sj then insert p (get_type sj) rest else rest

-- `for k, v := range props { result[k] = v }`.
unfoldable pub put_all : SimpleProperties → SimpleProperties → SimpleProperties
unfolding insert
put_all [] result = result
put_all ((k, v) ∷ props) result = insert k v (put_all props result)

-- What a member of `AllOf` adds: what it refers to, then its own properties.
abbrev pub after_member :
    Text
    → Parent
    → Option (Option (Result SchemaError SimpleProperties))
    → SimpleProperties
    → Option (Result SchemaError SimpleProperties)
after_member id p none result = some (ok (add_simple_properties p.properties result))
after_member id p (some none) result = none
after_member id p (some (some (err e))) result = some (err (unresolved p.ref id e))
after_member id p (some (some (ok props))) result =
    some (ok (add_simple_properties p.properties (put_all props result)))

-- The loop of `SimpleProperties` over `AllOf`, from its start.
unfoldable pub inherit :
    (Text → Option (Result SchemaError SimpleProperties))
    → Text
    → List Parent
    → SimpleProperties
    → Option (Result SchemaError SimpleProperties)
unfolding add_simple_properties put_all
inherit call id [] result = some (ok result)
inherit call id (p ∷ ps) result = elim (after_member id p (called call p.ref) result) [
  | none ↦ none
  | some (err e) ↦ some (err e)
  | some (ok result') ↦ inherit call id ps result'
]

abbrev pub with_own :
    PropertyMap
    → Option (Result SchemaError SimpleProperties)
    → Option (Result SchemaError SimpleProperties)
with_own properties none = none
with_own properties (some (err e)) = some (err e)
with_own properties (some (ok result)) = some (ok (add_simple_properties properties result))

-- `SimpleProperties`, the function.
unfoldable pub simple_properties :
    ℕ → SchemaSet → Text → Option (Result SchemaError SimpleProperties)
unfolding inherit
simple_properties zero ss id = none
simple_properties (suc fuel) ss id = elim (lookup id ss) [
  | none ↦ some (err (no_schema id))
  | some schema ↦
      with_own schema.properties (inherit (simple_properties fuel ss) id schema.all_of [])
]

abbrev pub constant_of : Text → Text → Result SchemaError Property → Result SchemaError Text
constant_of id name (err e) = err e
constant_of id name (ok p) =
    if is_empty p.constant then err (not_constant name id) else ok p.constant

-- `ConstantStringType`.
unfoldable pub constant_string_type : ℕ → SchemaSet → Text → Text → Option (Result SchemaError Text)
unfolding property_type
constant_string_type fuel ss id name = elim (property_type fuel ss id name) [
  | none ↦ none
  | some r ↦ some (constant_of id name r)
]
