-- ===== src/Schemas/Register.antt =====
-- schemaparser/register.go, and `TypeName` of schemaset.go: the schemas are registered as types with
-- the metadata service. The schemas come in any order. `fuel` is that of the recursive functions.
pub mod Converted
pub mod Registered
use metadata.Prelude.{
  ℕ, Bool, true, false, ◌||◌, List, [], ◌∷◌, ◌++◌, map, Option, none, some, if◌then◌else◌,
}
use metadata.Prelude.Texts.{Text, text, text_eq}
use metadata.Prelude.Results.{Result, ok, err, ◌>>=◌, lookup, insert}
use metadata.Service.{
  Kind, artifact, execution, PropertyType, int_type, double_type, TypeMessage, Store, Error,
}
use metadata.Service
use metadata.Schemas.Loading.{Libraries, LoadError, new_schema_set_from_a_dir}
use metadata.Service.Types.{create_type}
use metadata.Schemas.{
  SchemaSet, SchemaError, SimpleProperties, string_type, integer_type, number_type,
  simple_properties, constant_string_type,
}

-- A step that may fail, of a function on fuel.
abbrev pub then_ok {ℓ} :
    {E A B : Type ℓ} → Option (Result E A) → (A → Option (Result E B)) → Option (Result E B)
then_ok none f = none
then_ok (some (err e)) f = some (err e)
then_ok (some (ok a)) f = f a

-- `TypeName`.
unfoldable pub type_name : ℕ → SchemaSet → Text → Option (Result SchemaError (Text × Text))
unfolding constant_string_type
type_name fuel ss id = then_ok (constant_string_type fuel ss id (text "namespace")) λ namespace.
    then_ok (constant_string_type fuel ss id (text "kind")) λ kind.
      then_ok (constant_string_type fuel ss id (text "apiversion"))
        λ version. some (ok (namespace ++ (b'/' ∷ version), kind))

pub data RegisterError : Type 0 where
  schema_error : SchemaError → RegisterError
  unknown_type : (name type : Text) → RegisterError
  server_error : Error → RegisterError
  not_loaded : LoadError → RegisterError
  no_category : (id : Text) → RegisterError

-- `isPropertyBuiltIn`.
unfoldable pub is_property_built_in : Text → Bool
is_property_built_in name =
    text_eq name (text "category")
    || text_eq name (text "namespace")
    || text_eq name (text "kind")
    || text_eq name (text "apiversion")
    || text_eq name (text "id")
    || text_eq name (text "uri")

-- The `switch` on the type of a property.
unfoldable pub converted : Text → Text → Result RegisterError PropertyType
converted name type =
    if text_eq type string_type
    then ok Service.string_type
    else if text_eq type integer_type
    then ok int_type
    else if text_eq type number_type
    then ok double_type
    else err (unknown_type name type)

-- The loop over the simple properties. The order of a map's keys is free.
unfoldable pub properties_of : SimpleProperties → Result RegisterError (List (Text × PropertyType))
unfolding insert is_property_built_in converted
properties_of [] = ok []
properties_of ((name, type) ∷ properties) =
    let rest = properties_of properties in
    let more = converted name type >>= λ t. rest >>= λ ps. ok (insert name t ps) in
    if is_property_built_in name then rest else more

abbrev pub whole_meta_property_name : Text
whole_meta_property_name = text "__ALL_META__"

abbrev pub full_name : Text × Text → Text
full_name (namespace, name) = namespace ++ (b'/' ∷ name)

abbrev pub type_message : Text → List (Text × PropertyType) → TypeMessage
type_message name properties = record {
  id = none;
  name = name;
  properties = insert whole_meta_property_name Service.string_type properties;
}

abbrev pub category_of : Text → Option Kind
category_of c =
    if text_eq c (text "artifact")
    then some artifact
    else if text_eq c (text "execution")
    then some execution
    else none

-- What is to be done with a schema: nothing, where its type has no name or its category is unknown.
unfoldable pub planned : ℕ → SchemaSet → Text → Option (Result RegisterError (Option (Kind × Text)))
unfolding type_name constant_string_type
planned fuel ss id = elim (type_name fuel ss id) [
  | none ↦ none
  | some (err _) ↦ some (ok none)
  | some (ok name) ↦ elim (constant_string_type fuel ss id (text "category")) [
    | none ↦ none
    | some (err _) ↦ some (err (no_category id))
    | some (ok c) ↦ elim (category_of c) [
      | none ↦ some (ok none)
      | some k ↦ some (ok (some (k, full_name name)))
    ]
  ]
]

module _ (st : Store) where
  open st use {State}

  abbrev pub created : State × Result Error TypeMessage → State × Result RegisterError (Unit {0})
  created (s, ok t) = (s, ok tt)
  created (s, err e) = (s, err (server_error e))

  abbrev pub put_properties :
      Kind
      → State
      → Text
      → Result RegisterError (List (Text × PropertyType))
      → State × Result RegisterError (Unit {0})
  put_properties k s name (err e) = (s, err e)
  put_properties k s name (ok ps) = created (create_type st k s (some (type_message name ps)))

  -- `registerArtifactType` and `registerExecutionType`.
  unfoldable pub register_type :
      ℕ → Kind → State → SchemaSet → Text → Text → Option (State × Result RegisterError (Unit {0}))
  unfolding create_type properties_of simple_properties
  register_type fuel k s ss id name = elim (simple_properties fuel ss id) [
    | none ↦ none
    | some (err e) ↦ some (s, err (schema_error e))
    | some (ok properties) ↦ some (put_properties k s name (properties_of properties))
  ]

  -- The loop of `RegisterSchemas` over the ids, with the types registered so far.
  unfoldable pub register_all :
      ℕ
      → SchemaSet
      → List Text
      → State
      → List Text
      → Option (State × Result RegisterError (List Text))
  unfolding register_type planned
  register_all fuel ss [] s types = some (s, ok types)
  register_all fuel ss (id ∷ ids) s types = elim (planned fuel ss id) [
    | none ↦ none
    | some (err e) ↦ some (s, err e)
    | some (ok none) ↦ register_all fuel ss ids s types
    | some (ok (some (k, name))) ↦ elim (register_type fuel k s ss id name) [
      | none ↦ none
      | some (s', err e) ↦ some (s', err e)
      | some (s', ok _) ↦ register_all fuel ss ids s' (types ++ name ∷ [])
    ]
  ]

  -- `RegisterSchemas` once the schemas are loaded.
  unfoldable pub register_schemas :
      ℕ → SchemaSet → State → Option (State × Result RegisterError (List Text))
  unfolding register_all
  register_schemas fuel ss s = register_all fuel ss (map (λ entry. entry.0) ss) s []

  -- `RegisterSchemas`, of the files that the pattern stands for.
  unfoldable pub register_schemas_in :
      Libraries → ℕ → Text → State → Option (State × Result RegisterError (List Text))
  unfolding register_schemas new_schema_set_from_a_dir
  register_schemas_in lib fuel pattern s = elim (new_schema_set_from_a_dir lib pattern) [
    | err e ↦ some (s, err (not_loaded e))
    | ok (_, ss) ↦ register_schemas fuel ss s
  ]
