-- ===== src/Sdk/Listed.antt =====
-- What is logged in a workspace is listed in it.
use mathlib.Core.Path.{subst}
use metadata.Prelude.{
  ℕ, ◌≡◌, refl, sym, ap, ◌∙◌, Bool, true, false, List, [], ◌∷◌, ◌++◌, Option, none, some,
  if◌then◌else◌,
}
use metadata.Prelude.Texts.{Text, text_eq_refl}
use metadata.Prelude.Results.{
  Result, ok, err, map_err, ◌>>=◌, steps-ok, lookup, insert, lookup-insert,
}
use metadata.Json.{Json}
use metadata.Sdk.{
  Pb, PropertyMap, string, Store, SdkError, store_error, Artifact, workspace_property_name,
  run_property_name,
}
use metadata.Sdk.Workspaces.{Workspace, Flat, flat, is_named, list_from, type_or_model, list}
use metadata.Sdk.Logging.{Execution, with_groups, prepared}
use metadata.Sdk.Workspaces.Flattening.{workspace_key, flat-workspace}

with_groups-workspace :
    (name : Text) (run : Option Text) (custom : PropertyMap)
    → lookup workspace_property_name (with_groups name run custom) ≡ some (string name)
unfolding with_groups
with_groups-workspace name none custom =
    lookup-insert workspace_property_name workspace_property_name (string name) custom
with_groups-workspace name (some run) custom =
    lookup-insert run_property_name workspace_property_name (string run)
      (insert workspace_property_name (string name) custom)
    ∙ lookup-insert workspace_property_name workspace_property_name (string name) custom

-- A flat artifact stands in a list.
abbrev pub Holds : List Flat → Flat → Type 0
Holds fs f = (before : List Flat) × (after : List Flat) × (fs ≡ before ++ f ∷ after)

keeps : (b : Bool) (g f : Flat) (fs : List Flat) → Holds fs f → Holds (if b then g ∷ fs else fs) f
keeps true g f fs (before, after, e) = (g ∷ before, after, ap (g ∷◌) e)
keeps false g f fs h = h

list_from-Holds :
    (loads : Text → Option (List (Text × Json))) (name : Text) (before after : List Pb) (a : Pb)
    (fs : List Flat)
    → lookup workspace_key a.properties ≡ none
    → lookup workspace_property_name a.custom_properties ≡ some (string name)
    → list_from loads name (before ++ a ∷ after) ≡ ok fs
    → (f : Flat) × (flat loads a ≡ ok f) × Holds fs f
unfolding list_from
list_from-Holds loads name [] after a fs no_key groups h =
    let (f, read, h1) =
      steps-ok (flat loads a)
        (λ f. list_from loads name after >>= λ gs.
          ok (if is_named name (lookup workspace_key f) then f ∷ gs else gs))
        h in
    let (gs, rest, h2) =
      steps-ok (list_from loads name after)
        (λ gs. ok (if is_named name (lookup workspace_key f) then f ∷ gs else gs)) h1 in
    let named : is_named name (lookup workspace_key f) ≡ true =
      ap (is_named name) (flat-workspace loads a name f no_key groups read) ∙ text_eq_refl name in
    (f, read, ([], gs, sym (inner h2) ∙ rw named refl))
  where
    inner : {xs ys : List Flat} → ◌≡◌ {A = Result SdkError (List Flat)} (ok xs) (ok ys) → xs ≡ ys
    inner e = cc
list_from-Holds loads name (b ∷ before) after a fs no_key groups h =
    let (g, read, h1) =
      steps-ok (flat loads b)
        (λ g. list_from loads name (before ++ a ∷ after) >>= λ gs.
          ok (if is_named name (lookup workspace_key g) then g ∷ gs else gs))
        h in
    let (gs, rest, h2) =
      steps-ok (list_from loads name (before ++ a ∷ after))
        (λ gs. ok (if is_named name (lookup workspace_key g) then g ∷ gs else gs)) h1 in
    let (f, found, there) = list_from-Holds loads name before after a gs no_key groups rest in
    (
      f,
      found,
      subst (λ xs. Holds xs f) (inner h2)
          (keeps (is_named name (lookup workspace_key g)) g f gs there),
    )
  where
    inner : {xs ys : List Flat} → ◌≡◌ {A = Result SdkError (List Flat)} (ok xs) (ok ys) → xs ≡ ys
    inner e = cc

-- An artifact as it is put into the store for an execution, with any id, is among those that its
-- workspace lists, if the store gives it among those of the type and the list comes without an error:
-- its flat form is in the list. Its own properties do not have one named `workspace`.
pub list-logged :
    (st : Store) (loads : Text → Option (List (Text × Json))) (w : Workspace) (s : st.State)
    (type_name : Option Text) (e : Execution) (type_id id : ℕ) (a : Artifact)
    (before after : List Pb) (fs : List Flat)
    → lookup workspace_key a.serialization.properties ≡ none
    → e.workspace.name ≡ w.name
    → st.get_artifacts_by_type s (type_or_model type_name)
      ≡ ok (before ++ record (prepared e type_id a) { id = some id } ∷ after)
    → list st loads w s type_name ≡ ok fs
    → (f : Flat) × (flat loads (record (prepared e type_id a) { id = some id }) ≡ ok f) × Holds fs f
unfolding list
list-logged st loads w s type_name e type_id id a before after fs no_key same got h =
    let pb = record (prepared e type_id a) { id = some id } in
    let listed : list_from loads w.name (before ++ pb ∷ after) ≡ ok fs =
      through (st.get_artifacts_by_type s (type_or_model type_name)) got h in
    list_from-Holds loads w.name before after pb fs no_key
      (with_groups-workspace e.workspace.name e.run a.serialization.custom_properties
        ∙ ap (λ n. some (string n)) same)
      listed
  where
    through :
        (r : Result Text (List Pb)) {pbs : List Pb}
        → r ≡ ok pbs
        → (map_err store_error r >>= list_from loads w.name) ≡ ok fs
        → list_from loads w.name pbs ≡ ok fs
    through (ok xs) q k = cc (k)
    through (err x) q k = cc
