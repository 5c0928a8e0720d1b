-- ===== src/Tests/Schemas.antt =====
-- Schemas and their registration on small inputs.
use metadata.Prelude.{
  ℕ, ◌≡◌, refl, true, List, [], ◌∷◌, none, some, is_some, if◌then◌else◌, All, arith,
}
use metadata.Prelude.Texts.{Text, text, text_eq}
use metadata.Prelude.Results.{ok, lookup, insert}
use metadata.Service.{PropertyType, int_type}
use metadata.Service
use metadata.Schemas.{
  Property, named, Parent, SchemaJson, SchemaSet, SimpleProperties, property_type,
  simple_properties, is_simple_type,
}
use metadata.Schemas.Agreement.{simple_properties-agree, type_in}
use metadata.Schemas.Ending.{simple_properties-ends, simple_properties-loops}
use metadata.Schemas.Register.{
  properties_of, type_message, whole_meta_property_name, is_property_built_in,
}
use metadata.Schemas.Register.Converted.{registered-properties, property_type_of, map_option}
use metadata.Schemas.Loading.{Libraries, new_schema_set_from_files}
use metadata.Schemas.Loading.Loaded.{IsIn, new_schema_set_from_files-All}

abbrev size : Property
size = record { type = named (text "integer"); constant = [] }

abbrev label : Property
label = record { type = named (text "string"); constant = text "model" }

abbrev base_schema : SchemaJson
base_schema = record { properties = (text "size", size) ∷ (text "kind", label) ∷ []; all_of = [] }

-- It takes what it does not have from `base`.
abbrev model_schema : SchemaJson
model_schema = record {
  properties = (text "kind", label) ∷ [];
  all_of = record { ref = some (text "base"); properties = [] } ∷ [];
}

abbrev schemas : SchemaSet
schemas = (text "model", model_schema) ∷ (text "base", base_schema) ∷ []

abbrev model_properties : SimpleProperties
model_properties = (text "size", text "integer") ∷ (text "kind", text "string") ∷ []

model_simple : simple_properties 2 schemas (text "model") ≡ some (ok model_properties)
unfolding simple_properties lookup
model_simple = refl

size_type : property_type 2 schemas (text "model") (text "size") ≡ some (ok size)
unfolding property_type lookup
size_type = refl

simple_properties-agree_example : lookup (text "size") model_properties ≡ type_in (ok size)
unfolding is_simple_type
simple_properties-agree_example =
    simple_properties-agree 2 2 schemas (text "model") (text "size") model_properties (ok size)
      model_simple size_type refl

-- The rank of `model` is above that of `base`.
abbrev rank : Text → ℕ
rank id = if text_eq id (text "model") then 1 else 0

simple_properties-ends_example :
    (is_some (simple_properties 2 schemas (text "model")) ≡ true)
    × (is_some (property_type 2 schemas (text "model") (text "size")) ≡ true)
simple_properties-ends_example =
    simple_properties-ends rank schemas (text "model") (text "size") 2 ((omega arith, tt), (tt, tt))
      (omega arith)

abbrev self_parent : Parent
self_parent = record { ref = some (text "self"); properties = [] }

abbrev self_schema : SchemaJson
self_schema = record { properties = []; all_of = self_parent ∷ [] }

simple_properties-loops_example :
    simple_properties 100 ((text "self", self_schema) ∷ []) (text "self") ≡ none
unfolding lookup
simple_properties-loops_example =
    simple_properties-loops ((text "self", self_schema) ∷ []) (text "self") self_schema self_parent
      [] 100 refl refl refl

registered-properties_example :
    (ps : List (Text × PropertyType)) × (properties_of model_properties ≡ ok ps)
    × (lookup (text "size") (type_message (text "t") ps).properties ≡ (
        if text_eq whole_meta_property_name (text "size")
        then some Service.string_type
        else if is_property_built_in (text "size")
        then none
        else map_option property_type_of (lookup (text "size") model_properties)))
registered-properties_example =
    registered-properties 2 schemas (text "model") (text "t") (text "size") model_properties
      model_simple

-- Each file holds the schema of its name.
abbrev files : Libraries
files = record {
  SchemaLoader = Unit {0};
  new_schema_loader = tt;
  add_schemas = λ sl url. ok tt;
  compile = λ sl url. ok tt;
  compile_bytes = λ sl b. ok tt;
  glob = λ pattern. ok (text "base" ∷ text "model" ∷ []);
  abs = λ file. ok file;
  read_file = λ path. ok path;
  unmarshal = λ b. if text_eq b (text "model") then ok (b, model_schema) else ok (b, base_schema);
}

loaded :
    new_schema_set_from_files files (text "base" ∷ text "model" ∷ [])
    ≡ ok (tt, (text "base", base_schema) ∷ (text "model", model_schema) ∷ [])
unfolding new_schema_set_from_files lookup insert
loaded = refl

new_schema_set_from_files-All_example :
    All
      (IsIn files tt ((text "base", base_schema) ∷ (text "model", model_schema) ∷ []))
      (text "base" ∷ text "model" ∷ [])
new_schema_set_from_files-All_example =
    new_schema_set_from_files-All files (text "base" ∷ text "model" ∷ []) tt
      ((text "base", base_schema) ∷ (text "model", model_schema) ∷ []) loaded
