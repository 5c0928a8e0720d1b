-- ===== src/Watcher.antt =====
-- watcher/handlers/metalogger.go: resources that are created in the cluster are logged as artifacts,
-- once each. The client of the metadata store and the JSON writer are arguments. Of a property's value
-- only a string is read.
pub mod Once
use metadata.Prelude.{
  Bool, true, false, ◌||◌, List, [], ◌∷◌, ◌++◌, Option, none, some, if◌then◌else◌,
}
use metadata.Prelude.Texts.{Text, text, text_eq}
use metadata.Prelude.Results.{Result, ok, err, lookup}
use metadata.Service.{ℤ}

-- An artifact with its properties of type string.
pub record Artifact : Type 0 where
  pub type_id : ℤ
  pub uri : Text
  pub properties : List (Text × Text)
  pub custom_properties : List (Text × Text)

-- The calls of `MetadataStoreServiceClient`.
pub record Client : Type 1 where
  pub State : Type 0
  pub put_artifact_type : State → Text → List Text → State × Result Text ℤ
  pub get_artifacts_by_type : State → Text → Result Text (List Artifact)
  pub put_artifacts : State → List Artifact → State × Result Text (Unit {0})

-- `group_kind` is how Kubernetes writes the group and the kind.
pub record Resource : Type 0 where
  pub group_kind : Text
  pub version : Text

pub record MetaLogger : Type 0 where
  pub resource : Resource
  pub type_id : ℤ

-- `metav1.Object`, with its time of creation in RFC 3339.
pub record Object : Type 0 where
  pub uid : Text
  pub name : Text
  pub self_link : Text
  pub creation_timestamp : Text

-- What `OnAdd` is called with: an object, a tombstone that may hold one, or something else.
pub data Added : Type 0 where
  object : Object → Added
  tombstone : Option Object → Added
  other : Added

pub data AddError : Type 0 where
  invalid_type invalid_tombstone not_marshalled : AddError
  not_looked_up not_logged : Text → AddError

-- `MetadataArtifactType`.
unfoldable pub metadata_artifact_type : Resource → Text
metadata_artifact_type r = text "kubeflow.org/" ++ (r.group_kind ++ (b'/' ∷ r.version))

abbrev pub object_of : Added → Result AddError Object
object_of (object o) = ok o
object_of (tombstone (some o)) = ok o
object_of (tombstone none) = err invalid_tombstone
object_of other = err invalid_type

-- `artifact.Properties["version"].GetStringValue()`
unfoldable pub version_of : Artifact → Text
unfolding lookup
version_of a = elim (lookup (text "version") a.properties) [ none ↦ [] | some v ↦ v ]

unfoldable pub has_version : Text → List Artifact → Bool
unfolding version_of
has_version uid [] = false
has_version uid (a ∷ rest) = text_eq (version_of a) uid || has_version uid rest

abbrev pub artifact_of : MetaLogger → Object → Text → Artifact
artifact_of l o json = record {
  type_id = l.type_id;
  uri = o.self_link;
  properties =
      (text "name", o.name)
      ∷ (text "version", o.uid)
      ∷ (text "create_time", o.creation_timestamp)
      ∷ (text "object", json)
      ∷ [];
  custom_properties = (text "__kf_workspace__", text "resource_watcher") ∷ [];
}

-- What the watcher hears of, in its order. An error is the watcher's to report.
pub data Heard : Type 0 where
  added : Added → Heard
  updated : (old new : Added) → Heard
  deleted : Added → Heard

module _ (c : Client) where
  open c use {State}

  -- `NewMetaLogger`.
  unfoldable pub new_meta_logger : State → Resource → State × Result Text MetaLogger
  unfolding metadata_artifact_type
  new_meta_logger s r =
      let (s', answer) =
        c.put_artifact_type s (metadata_artifact_type r)
          (text "name" ∷ text "version" ∷ text "create_time" ∷ text "object" ∷ []) in
      elim answer [ err e ↦ (s', err e) | ok id ↦ (s', ok (record { resource = r; type_id = id })) ]

  -- `ifExists`.
  unfoldable pub if_exists : MetaLogger → State → Text → Result Text Bool
  unfolding has_version
  if_exists l s uid = elim (c.get_artifacts_by_type s (metadata_artifact_type l.resource)) [
    | err e ↦ err e
    | ok artifacts ↦ ok (has_version uid artifacts)
  ]

  abbrev pub logged : State × Result Text (Unit {0}) → State × Result AddError (Unit {0})
  logged (s, ok _) = (s, ok tt)
  logged (s, err e) = (s, err (not_logged e))

  -- What `OnAdd` does once it has the object.
  unfoldable pub log_object :
      (marshal : Added → Option Text)
      → MetaLogger
      → State
      → Added
      → Object
      → State × Result AddError (Unit {0})
  unfolding if_exists
  log_object marshal l s obj o = elim (if_exists l s o.uid) [
    | err e ↦ (s, err (not_looked_up e))
    | ok true ↦ (s, ok tt)
    | ok false ↦ elim (marshal obj) [
      | none ↦ (s, err not_marshalled)
      | some json ↦ logged (c.put_artifacts s (artifact_of l o json ∷ []))
    ]
  ]

  -- `OnAdd`.
  unfoldable pub on_add :
      (marshal : Added → Option Text)
      → MetaLogger
      → State
      → Added
      → State × Result AddError (Unit {0})
  unfolding log_object
  on_add marshal l s obj = elim (object_of obj) [
    | err e ↦ (s, err e)
    | ok o ↦ log_object marshal l s obj o
  ]

  -- `OnUpdate` and `OnDelete`.
  unfoldable pub on_update :
      MetaLogger → State → (old new : Added) → State × Result AddError (Unit {0})
  on_update l s old new = (s, ok tt)

  unfoldable pub on_delete : MetaLogger → State → Added → State × Result AddError (Unit {0})
  on_delete l s obj = (s, ok tt)

  unfoldable pub hear : (marshal : Added → Option Text) → MetaLogger → State → Heard → State
  unfolding on_add on_update on_delete
  hear marshal l s (added obj) = (on_add marshal l s obj).0
  hear marshal l s (updated old new) = (on_update l s old new).0
  hear marshal l s (deleted obj) = (on_delete l s obj).0

  unfoldable pub hear_all :
      (marshal : Added → Option Text) → MetaLogger → State → List Heard → State
  unfolding hear
  hear_all marshal l s [] = s
  hear_all marshal l s (h ∷ hs) = hear_all marshal l (hear marshal l s h) hs
