-- ===== src/Details/Section.antt =====
-- pages/ExecutionDetails.tsx, class SectionIO and ArtifactRow: what is loaded about the artifacts of
-- a section, and the rows that are shown.
pub mod Latest
use metadata.Prelude.{
  ℕ, Bool, List, [], ◌∷◌, map, Option, none, some, if◌then◌else◌, ◌==◌, true, false,
}
use metadata.Prelude.Texts.{Text}
use metadata.Value.{truthy, ◌|||◌, str, num, Value, empty_string}
use metadata.Resources.{Resource, PropertyName, TypeMap, get_type}
use metadata.Shell.Links.{artifact_details}
use metadata.Details.Artifact.{Reply, answered, thrown}

pub record ArtifactInfo : Type 0 where
  pub id : ℕ
  pub name : Value
  pub type_id : ℕ
  pub uri : Text

-- `artifactDataMap`; the last of equal keys wins.
abbrev pub InfoMap : Type 0
InfoMap = List ArtifactInfo

unfoldable pub info_at : InfoMap → ℕ → Option ArtifactInfo
info_at [] id = none
info_at (d ∷ m) id = if d.id == id then some d else info_at m id

unfoldable pub info_of : Resource → ArtifactInfo
info_of a = record {
  id = a.id;
  name =
      a.property PropertyName.name false ||| (a.property PropertyName.name true ||| empty_string);
  type_id = a.type_id;
  uri = a.uri;
}

-- The `forEach` of `componentDidMount`; an artifact with the id 0 is only logged.
unfoldable pub info_map_from : InfoMap → List Resource → InfoMap
info_map_from m [] = m
info_map_from m (a ∷ rest) = info_map_from (if a.id == 0 then m else info_of a ∷ m) rest

-- A failed request leaves the state as it is.
unfoldable pub component_did_mount : InfoMap → Reply (List Resource) → InfoMap
component_did_mount m (answered artifacts) = info_map_from [] artifacts
component_did_mount m (thrown e) = m

-- What a row shows: the id, where it links to, the name, the type and the uri.
pub record ArtifactRow : Type 0 where
  pub id : ℕ
  pub link : Option Text
  pub name : Value
  pub type : Option Text
  pub uri : Option Text

abbrev pub type_of : Option TypeMap → Option ArtifactInfo → Option Text
type_of none d = none
type_of (some types) none = none
type_of (some types) (some d) = if d.type_id == 0 then none else get_type d.type_id types

-- An empty type's name or the id 0 gives no link.
abbrev pub link_of : Option Text → ℕ → Option Text
link_of none id = none
link_of (some []) id = none
link_of (some (c ∷ t)) id = if id == 0 then none else some (artifact_details (c ∷ t) id)

unfoldable pub artifact_row : Option TypeMap → Option ArtifactInfo → ℕ → ArtifactRow
artifact_row types d id = record {
  id = id;
  link = link_of (type_of types d) id;
  name = elim d [ none ↦ empty_string | some i ↦ i.name ||| empty_string ];
  type = type_of types d;
  uri = elim d [ none ↦ none | some i ↦ some i.uri ];
}

-- Nothing when there are no ids.
unfoldable pub render : InfoMap → Option TypeMap → List ℕ → Option (List ArtifactRow)
render m types [] = none
render m types (id ∷ ids) = some (map (λ i. artifact_row types (info_at m i) i) (id ∷ ids))
