-- ===== src/Schemas/Loading/Loaded.antt =====
-- What a loaded set of schemas holds.
use mathlib.Core.Path.{subst}
use metadata.Prelude.{
  ◌≡◌, refl, ap, ◌∙◌, List, [], ◌∷◌, Option, none, some, Bool-cases, inl, inr, All,
}
use metadata.Prelude.Texts.{Text, text_eq, text_eq_iff, text_eq_refl}
use metadata.Prelude.Results.{ok, err, ◌>>=◌, steps-ok, lookup, insert, lookup-insert}
use metadata.Schemas.{SchemaSet, SchemaJson}
use metadata.Schemas.Loading.{
  Libraries, duplicated_id, schema_of, put_new, load_files, load_schemas, new_schema_set_from_files,
}

-- The file's schema is in the set under its id.
pub record IsIn (lib : Libraries) (sl : lib.SchemaLoader) (ss : SchemaSet) (file : Text)
    : Type 0 where
  pub id : Text
  pub schema : SchemaJson
  pub read : schema_of lib sl file ≡ ok (id, schema)
  pub there : lookup id ss ≡ some schema

module _ (lib : Libraries) (sl : lib.SchemaLoader) where
  new_entry :
      (o : Option SchemaJson) (id : Text) (schema : SchemaJson) (result result' : SchemaSet)
      → elim o [ some _ ↦ err (duplicated_id id) | none ↦ ok (insert id schema result) ]
        ≡ ok result'
      → (o ≡ none) × (insert id schema result ≡ result')
  new_entry none id schema result result' h = (refl, cc)
  new_entry (some old) id schema result result' h = cc

  insert-kept :
      (k : Text) (v : SchemaJson) (j : Text) (w : SchemaJson) (m : SchemaSet)
      → lookup j m ≡ none
      → lookup k m ≡ some v
      → lookup k (insert j w m) ≡ some v
  insert-kept k v j w m new there = elim (Bool-cases (text_eq j k)) [
    | inl same ↦ cc ((text_eq_iff j k).0 same, new, there)
    | inr other ↦ lookup-insert j k w m ∙ rw other there
  ]

  -- A file that is loaded without an error.
  first_file :
      (file : Text) (files : List Text) (result ss : SchemaSet)
      → load_files lib sl (file ∷ files) result ≡ ok ss
      → (id : Text) × (schema : SchemaJson) × (schema_of lib sl file ≡ ok (id, schema))
        × (lookup id result ≡ none)
        × (load_files lib sl files (insert id schema result) ≡ ok ss)
  unfolding load_files
  first_file file files result ss h =
      let (result', put, rest) =
        steps-ok (schema_of lib sl file >>= put_new lib result) (load_files lib sl files) h in
      let ((id, schema), read, put') = steps-ok (schema_of lib sl file) (put_new lib result) put in
      let (new, whole) = new_entry (lookup id result) id schema result result' put' in
      (id, schema, read, new, ap (load_files lib sl files) whole ∙ rest)

  load_files-kept :
      (files : List Text) (result ss : SchemaSet) (k : Text) (v : SchemaJson)
      → load_files lib sl files result ≡ ok ss
      → lookup k result ≡ some v
      → lookup k ss ≡ some v
  unfolding load_files
  load_files-kept [] result ss k v h there =
      let same : result ≡ ss = cc in subst (λ m. lookup k m ≡ some v) same there
  load_files-kept (file ∷ files) result ss k v h there =
      let (id, schema, read, new, rest) = first_file file files result ss h in
      load_files-kept files (insert id schema result) ss k v rest
        (insert-kept k v id schema result new there)

  load_files-All :
      (files : List Text) (result ss : SchemaSet)
      → load_files lib sl files result ≡ ok ss
      → All (IsIn lib sl ss) files
  load_files-All [] result ss h = tt
  load_files-All (file ∷ files) result ss h =
      let (id, schema, read, new, rest) = first_file file files result ss h in
      let self : lookup id (insert id schema result) ≡ some schema =
        lookup-insert id id schema result ∙ rw text_eq_refl refl in
      (
        record {
          id = id;
          schema = schema;
          read = read;
          there = load_files-kept files (insert id schema result) ss id schema rest self;
        },
        load_files-All files (insert id schema result) ss rest,
      )

-- A set that is loaded without an error has the schema of each of the files under its id, as it was
-- read and compiled; no file's schema takes the place of another's.
pub new_schema_set_from_files-All :
    (lib : Libraries) (files : List Text) (sl : lib.SchemaLoader) (ss : SchemaSet)
    → new_schema_set_from_files lib files ≡ ok (sl, ss)
    → All (IsIn lib sl ss) files
unfolding new_schema_set_from_files
new_schema_set_from_files-All lib files sl ss h =
    let (sl', loaded, h1) =
      steps-ok (load_schemas lib lib.new_schema_loader files)
        (λ x. load_files lib x files [] >>= λ r. ok (x, r)) h in
    let (ss', read, h2) = steps-ok (load_files lib sl' files []) (λ r. ok (sl', r)) h1 in
    let same : ◌≡◌ {A = lib.SchemaLoader} sl' sl = cc in
    let same' : ss' ≡ ss = cc in
    subst (λ x. All (IsIn lib x ss) files) same
      (subst (λ y. All (IsIn lib sl' y) files) same' (load_files-All lib sl' files [] ss' read))
