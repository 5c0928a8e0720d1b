-- ===== src/Sdk/Workspaces.antt =====
-- sdk/python/kubeflow/metadata/metadata.py: `Workspace`. The constructor's checks of Python types are
-- left out. `loads` is `json.loads` where it gives an object, and `dumps` writes the labels.
pub mod Flattening
pub mod Branches
pub mod Again
use metadata.Prelude.{ℕ, Bool, false, List, [], ◌∷◌, ◌++◌, Option, none, some, if◌then◌else◌}
use metadata.Prelude.Texts.{Text, text, text_eq}
use metadata.Prelude.Results.{Result, ok, err, map_err, ◌>>=◌, lookup, insert}
use metadata.Json.{Json}
use metadata.Sdk.{
  retried, Pb, Context, Store, PropertyMap, string, string_value, SdkError, store_error,
  workspace_exists, unreadable_meta, workspace_property_name, run_property_name,
  all_meta_property_name,
}

pub record Workspace : Type 0 where
  pub name : Text
  pub description : Option Text
  pub labels : Option Text
  pub context_id : ℕ

abbrev pub context_type_name : Text
context_type_name = text "kubeflow.org/alpha/workspace"

-- What a flat artifact holds under a key.
pub data FlatValue : Type 0 where
  artifact_id : Option ℕ → FlatValue
  plain : Text → FlatValue
  nested : Json → FlatValue

abbrev pub Flat : Type 0
Flat = List (Text × FlatValue)

-- `result[key] = custom_properties[name].string_value`, if it is there.
abbrev pub put_custom : (key name : Text) → PropertyMap → Flat → Flat
put_custom key name custom result = elim (lookup name custom) [
  | none ↦ result
  | some v ↦ insert key (plain (string_value v)) result
]

-- The loop over the properties. `string_value` is never `None`, so that it is what is taken. The keys
-- of a map come in any order, and this one begins with the last.
unfoldable pub put_properties : PropertyMap → Flat → Flat
unfolding insert
put_properties [] result = result
put_properties ((k, v) ∷ properties) result =
    let rest = put_properties properties result in
    if text_eq k all_meta_property_name then rest else insert k (plain (string_value v)) rest

-- The loop over what is nested.
unfoldable pub put_missing : List (Text × Json) → Flat → Flat
unfolding lookup insert
put_missing [] result = result
put_missing ((k, v) ∷ rest) result = elim (lookup k result) [
  | some _ ↦ put_missing rest result
  | none ↦ put_missing rest (insert k (nested v) result)
]

-- `_flat`, before what is nested.
unfoldable pub flat_properties : Pb → Flat
unfolding put_properties lookup insert
flat_properties a = put_properties a.properties (
    put_custom (text "run") run_property_name a.custom_properties (
      put_custom (text "workspace") workspace_property_name a.custom_properties
        ((text "id", artifact_id a.id) ∷ [])))

-- `_flat`.
unfoldable pub flat : (loads : Text → Option (List (Text × Json))) → Pb → Result SdkError Flat
unfolding flat_properties put_missing
flat loads a = elim (lookup all_meta_property_name a.properties) [
  | none ↦ ok (flat_properties a)
  | some meta ↦ elim (loads (string_value meta)) [
    | none ↦ err unreadable_meta
    | some fields ↦ ok (put_missing fields (flat_properties a))
  ]
]

-- `"workspace" in flat and flat["workspace"] == self.name`
abbrev pub is_named : Text → Option FlatValue → Bool
is_named name (some (plain t)) = text_eq t name
is_named name (some (nested (Json.str t))) = text_eq t name
is_named name _ = false

-- The loop of `list`.
unfoldable pub list_from :
    (loads : Text → Option (List (Text × Json))) → Text → List Pb → Result SdkError (List Flat)
unfolding flat lookup
list_from loads name [] = ok []
list_from loads name (a ∷ rest) = flat loads a >>= λ f. list_from loads name rest >>= λ fs.
    ok (if is_named name (lookup (text "workspace") f) then f ∷ fs else fs)

-- The type that is listed where none is given.
abbrev pub type_or_model : Option Text → Text
type_or_model none = text "kubeflow.org/alpha/model"
type_or_model (some type_name) = type_name

module _ (st : Store) where
  open st use {State}

  -- `list`.
  unfoldable pub list :
      (loads : Text → Option (List (Text × Json)))
      → Workspace
      → State
      → Option Text
      → Result SdkError (List Flat)
  unfolding list_from
  list loads w s type_name =
      map_err store_error (st.get_artifacts_by_type s (type_or_model type_name))
      >>= list_from loads w.name

  -- `_get_existing_context`.
  unfoldable pub named_context : Text → List Context → Option Context
  named_context name [] = none
  named_context name (c ∷ rest) = if text_eq c.name name then some c else named_context name rest

  abbrev pub given : Text → Option Text → PropertyMap
  given key none = []
  given key (some t) = (key, string t) ∷ []

  abbrev pub created : State × Result Text ℕ → State × Result SdkError ℕ
  created (s, r) = (s, map_err store_error r)

  -- The type of the context, then the context.
  unfoldable pub create_context :
      State → Text → Option Text → Option Text → State × Result SdkError ℕ
  create_context s name description labels =
      let (s', r) =
        retried st
          (λ t. st.put_context_type t context_type_name (text "description" ∷ text "labels" ∷ []))
          s in
      elim r [
        | err e ↦ (s', err (store_error e))
        | ok type_id ↦ created (
            retried st
              (λ t. st.put_contexts t (
                record {
                  id = none;
                  type_id = type_id;
                  name = name;
                  properties =
                      given (text "description") description ++ given (text "labels") labels;
                }
                ∷ []))
              s')
      ]

  abbrev pub id_or_zero : Option ℕ → ℕ
  id_or_zero none = 0
  id_or_zero (some id) = id

  -- `_get_context_id`. `labels` is what `json.dumps` writes for them.
  unfoldable pub get_context_id :
      State → Text → Option Text → Option Text → (reuse : Bool) → State × Result SdkError ℕ
  unfolding named_context create_context
  get_context_id s name description labels reuse =
      elim (st.get_contexts_by_type s context_type_name) [
        | err e ↦ (s, err (store_error e))
        | ok contexts ↦ elim (named_context name contexts) [
          | none ↦ create_context s name description labels
          | some c ↦
              if reuse
              then (s, ok (id_or_zero c.id))
              else (s, err (workspace_exists name (id_or_zero c.id)))
        ]
      ]

  -- The constructor, where its arguments have the types that it asks for.
  unfoldable pub new_workspace :
      State → Text → Option Text → Option Text → (reuse : Bool) → State × Result SdkError Workspace
  unfolding get_context_id
  new_workspace s name description labels reuse =
      let (s', r) = get_context_id s name description labels reuse in
      (
        s',
        r >>= λ id.
            ok
              (record { name = name; description = description; labels = labels; context_id = id }),
      )
