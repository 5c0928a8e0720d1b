-- ===== src/Sdk/Workspaces/Flattening.antt =====
-- The flat form of an artifact has the workspace that the artifact is marked with.
use mathlib.Core.Path.{subst}
use metadata.Prelude.{
  ◌≡◌, refl, ◌∙◌, false, List, [], ◌∷◌, Option, none, some, if◌then◌else◌, Bool-cases, Option-cases,
  inl, inr, arith,
}
use metadata.Prelude.Texts.{Text, text, text_eq, text_eq_iff}
use metadata.Prelude.Results.{ok, err, lookup, insert, lookup-insert}
use metadata.Json.{Json}
use metadata.Sdk.{
  Pb, PropertyMap, PropertyValue, string, string_value, unreadable_meta, workspace_property_name,
  run_property_name, all_meta_property_name,
}
use metadata.Sdk.Workspaces.{
  FlatValue, plain, nested, Flat, put_custom, put_properties, put_missing, flat_properties, flat,
}

abbrev pub workspace_key : Text
workspace_key = text "workspace"

-- What is there already stays.
put_missing-kept :
    (k : Text) (v : FlatValue) (fields : List (Text × Json)) (f : Flat)
    → lookup k f ≡ some v
    → lookup k (put_missing fields f) ≡ some v
unfolding put_missing
put_missing-kept k v [] f h = h
put_missing-kept k v ((j, x) ∷ fields) f h = elim (Option-cases (lookup j f)) [
  | inr (old, o) ↦ rw (o, put_missing) (put_missing-kept k v fields f h)
  | inl new ↦
      rw (new, put_missing)
        (put_missing-kept k v fields (insert j (nested x) f)
          (lookup-insert j k (nested x) f ∙ kept new))
]
  where
    kept : lookup j f ≡ none → (if text_eq j k then some (nested x) else lookup k f) ≡ some v
    kept new = elim (Bool-cases (text_eq j k)) [
      | inl same ↦ cc ((text_eq_iff j k).0 same, new, h)
      | inr other ↦ rw other h
    ]

put_properties-other :
    (k : Text) (ps : PropertyMap) (f : Flat)
    → lookup k ps ≡ none
    → lookup k (put_properties ps f) ≡ lookup k f
unfolding put_properties lookup
put_properties-other k [] f h = refl
put_properties-other k ((j, v) ∷ ps) f h =
    let other : text_eq j k ≡ false = ground arith in
    let rest = put_properties-other k ps f (ground arith) in
    elim (Bool-cases (text_eq j all_meta_property_name)) [
      | inl meta ↦ rw (meta, put_properties) rest
      | inr no_meta ↦
          rw (no_meta, put_properties)
            (lookup-insert j k (plain (string_value v)) (put_properties ps f) ∙ rw other rest)
    ]

put_run-workspace :
    (custom : PropertyMap) (f : Flat)
    → lookup workspace_key (put_custom (text "run") run_property_name custom f)
      ≡ lookup workspace_key f
put_run-workspace custom f = through (lookup run_property_name custom)
  where
    through :
        (o : Option PropertyValue)
        → lookup workspace_key
            (elim o [ none ↦ f | some v ↦ insert (text "run") (plain (string_value v)) f ])
          ≡ lookup workspace_key f
    through none = refl
    through (some v) = lookup-insert (text "run") workspace_key (plain (string_value v)) f

put_workspace-workspace :
    (custom : PropertyMap) (name : Text) (f : Flat)
    → lookup workspace_property_name custom ≡ some (string name)
    → lookup workspace_key (put_custom workspace_key workspace_property_name custom f)
      ≡ some (plain name)
put_workspace-workspace custom name f h =
    rw (h, put_custom) (lookup-insert workspace_key workspace_key (plain name) f)

-- The flat form of an artifact names the workspace of its custom properties.
flat_properties-workspace :
    (a : Pb) (name : Text)
    → lookup workspace_key a.properties ≡ none
    → lookup workspace_property_name a.custom_properties ≡ some (string name)
    → lookup workspace_key (flat_properties a) ≡ some (plain name)
unfolding flat_properties
flat_properties-workspace a name no_key groups =
    put_properties-other workspace_key a.properties _ no_key
    ∙ put_run-workspace a.custom_properties _
    ∙ put_workspace-workspace a.custom_properties name _ groups

pub flat-workspace :
    (loads : Text → Option (List (Text × Json))) (a : Pb) (name : Text) (f : Flat)
    → lookup workspace_key a.properties ≡ none
    → lookup workspace_property_name a.custom_properties ≡ some (string name)
    → flat loads a ≡ ok f
    → lookup workspace_key f ≡ some (plain name)
unfolding flat
flat-workspace loads a name f no_key groups h =
    with_meta (lookup all_meta_property_name a.properties) h
  where
    there : lookup workspace_key (flat_properties a) ≡ some (plain name)
    there = flat_properties-workspace a name no_key groups

    with_fields :
        (o : Option (List (Text × Json)))
        → elim o [
          | none ↦ err unreadable_meta
          | some fields ↦ ok (put_missing fields (flat_properties a))
        ]
          ≡ ok f
        → lookup workspace_key f ≡ some (plain name)
    with_fields none h = cc
    with_fields (some fields) h =
        let same : put_missing fields (flat_properties a) ≡ f = cc in
        subst (λ x. lookup workspace_key x ≡ some (plain name)) same
          (put_missing-kept workspace_key (plain name) fields (flat_properties a) there)

    with_meta :
        (o : Option PropertyValue)
        → elim o [
          | none ↦ ok (flat_properties a)
          | some meta ↦ elim (loads (string_value meta)) [
            | none ↦ err unreadable_meta
            | some fields ↦ ok (put_missing fields (flat_properties a))
          ]
        ]
          ≡ ok f
        → lookup workspace_key f ≡ some (plain name)
    with_meta none h =
        let same : flat_properties a ≡ f = cc in
        subst (λ x. lookup workspace_key x ≡ some (plain name)) same there
    with_meta (some meta) h = with_fields (loads (string_value meta)) h
