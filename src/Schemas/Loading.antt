-- ===== src/Schemas/Loading.antt =====
-- schemaparser/schemaset.go: how a set of schemas is loaded from files, and how one is added to it;
-- `NewSchemaJSON` of schemajson.go. Files, paths, JSON and gojsonschema are arguments.
pub mod Loaded
use metadata.Prelude.{Bool, true, false, List, [], ◌∷◌, ◌++◌, Option, none, some, if◌then◌else◌}
use metadata.Prelude.Texts.{Text, text}
use metadata.Prelude.Results.{Result, ok, err, map_err, ◌>>=◌, lookup, insert}
use metadata.Value.{is_empty}
use metadata.Schemas.{SchemaSet, SchemaJson}

-- What the code calls. `unmarshal` gives a schema with its `$id`, which is empty if there is none.
pub record Libraries : Type 1 where
  pub SchemaLoader : Type 0
  pub new_schema_loader : SchemaLoader
  pub add_schemas : SchemaLoader → (url : Text) → Result Text SchemaLoader
  pub compile : SchemaLoader → (url : Text) → Result Text (Unit {0})
  pub compile_bytes : SchemaLoader → Text → Result Text (Unit {0})
  pub glob : (pattern : Text) → Result Text (List Text)
  pub abs : Text → Result Text Text
  pub read_file : Text → Result Text Text
  pub unmarshal : Text → Result Text (Text × SchemaJson)

pub data LoadError : Type 0 where
  not_globbed no_path unreadable unparsed not_added not_compiled : Text → LoadError
  missing_id : LoadError
  duplicated_id : Text → LoadError

abbrev pub url_of : Text → Text
url_of path = text "file://" ++ path

module _ (lib : Libraries) where
  open lib use {SchemaLoader}

  -- The loop of `loadSchemas`.
  unfoldable pub load_schemas : SchemaLoader → List Text → Result LoadError SchemaLoader
  load_schemas sl [] = ok sl
  load_schemas sl (file ∷ files) = map_err no_path (lib.abs file) >>= λ path.
      map_err not_added (lib.add_schemas sl (url_of path)) >>= λ sl'. load_schemas sl' files

  abbrev pub with_id : Text × SchemaJson → Result LoadError (Text × SchemaJson)
  with_id (id, schema) = if is_empty id then err missing_id else ok (id, schema)

  -- `NewSchemaJSON`.
  unfoldable pub new_schema_json : Text → Result LoadError (Text × SchemaJson)
  new_schema_json b = map_err unparsed (lib.unmarshal b) >>= with_id

  -- `schemaJSON`.
  unfoldable pub schema_json : Text → Result LoadError (Text × SchemaJson)
  unfolding new_schema_json
  schema_json path = map_err unreadable (lib.read_file path) >>= new_schema_json

  -- A file of the loop of `NewSchemaSetFromFiles`: its schema, compiled.
  unfoldable pub schema_of : SchemaLoader → Text → Result LoadError (Text × SchemaJson)
  unfolding schema_json
  schema_of sl file = map_err no_path (lib.abs file) >>= λ path. schema_json path >>= λ found.
      map_err not_compiled (lib.compile sl (url_of path)) >>= λ _. ok found

  abbrev pub put_new : SchemaSet → Text × SchemaJson → Result LoadError SchemaSet
  put_new result (id, schema) = elim (lookup id result) [
    | some _ ↦ err (duplicated_id id)
    | none ↦ ok (insert id schema result)
  ]

  unfoldable pub load_files : SchemaLoader → List Text → SchemaSet → Result LoadError SchemaSet
  unfolding schema_of lookup insert
  load_files sl [] result = ok result
  load_files sl (file ∷ files) result =
      schema_of sl file >>= put_new result >>= λ result'. load_files sl files result'

  -- `NewSchemaSetFromFiles`: the loader and the schemas.
  unfoldable pub new_schema_set_from_files : List Text → Result LoadError (SchemaLoader × SchemaSet)
  unfolding load_schemas load_files
  new_schema_set_from_files files = load_schemas lib.new_schema_loader files >>= λ sl.
      (load_files sl files [] >>= λ result. ok (sl, result))

  -- `NewSchemaSetFromADir`, with `filepath.Join(dir, "**/*.json")` as the argument.
  unfoldable pub new_schema_set_from_a_dir : Text → Result LoadError (SchemaLoader × SchemaSet)
  unfolding new_schema_set_from_files
  new_schema_set_from_a_dir pattern =
      map_err not_globbed (lib.glob pattern) >>= new_schema_set_from_files

  abbrev pub add_new :
      SchemaLoader → Text → SchemaSet → Text × SchemaJson → SchemaSet × Result LoadError Text
  add_new sl b ss (id, schema) = elim (lookup id ss) [
    | some _ ↦ (ss, ok id)
    | none ↦ elim (lib.compile_bytes sl b) [
      | err e ↦ (ss, err (not_compiled e))
      | ok _ ↦ (insert id schema ss, ok id)
    ]
  ]

  -- `AddSchema`.
  unfoldable pub add_schema : SchemaLoader → SchemaSet → Text → SchemaSet × Result LoadError Text
  unfolding new_schema_json lookup insert
  add_schema sl ss b = elim (new_schema_json b) [
    | err e ↦ (ss, err e)
    | ok found ↦ add_new sl b ss found
  ]
