-- ===== src/Details/Section/Latest.antt =====
-- What `artifactDataMap` holds after the artifacts have arrived.
use metadata.Prelude.{
  ℕ, ◌≡◌, ◌≢◌, refl, false, List, [], ◌∷◌, Option, none, some, if◌then◌else◌, ◌==◌, Bool-cases, inl,
  inr, arith, ◌∙◌,
}
use metadata.Resources.{Resource}
use metadata.Details.Artifact.{answered}
use metadata.Details.Section.{
  ArtifactInfo, InfoMap, info_at, info_of, info_map_from, component_did_mount,
}

-- The last of the artifacts with the id.
pub last_with : ℕ → List Resource → Option Resource
last_with id [] = none
last_with id (a ∷ rest) = elim (last_with id rest) [
  | some b ↦ some b
  | none ↦ if a.id == id then some a else none
]

abbrev pub info_or : Option ArtifactInfo → Option Resource → Option ArtifactInfo
info_or d none = d
info_or d (some a) = some (info_of a)

info_at-push :
    (m : InfoMap) (a : Resource) (id : ℕ)
    → id ≢ 0
    → info_at (if a.id == 0 then m else info_of a ∷ m) id
      ≡ info_or (info_at m id) (if a.id == id then some a else none)
unfolding info_at info_of
info_at-push m a id ne = elim (Bool-cases (a.id == 0)) [
  | inl zero_id ↦ let other : (a.id == id) ≡ false = ground arith in rw zero_id (rw other refl)
  | inr e ↦ elim (Bool-cases (a.id == id)) [
    | inl same ↦ rw e (rw same refl)
    | inr other ↦ rw e (rw other refl)
  ]
]

info_or-last :
    (m : InfoMap) (a : Resource) (id : ℕ) (last : Option Resource)
    → id ≢ 0
    → info_or (info_at (if a.id == 0 then m else info_of a ∷ m) id) last
      ≡ info_or
          (info_at m id)
          (elim last [ some b ↦ some b | none ↦ if a.id == id then some a else none ])
info_or-last m a id none ne = info_at-push m a id ne
info_or-last m a id (some b) ne = refl

info_map_from-at :
    (m : InfoMap) (artifacts : List Resource) (id : ℕ)
    → id ≢ 0
    → info_at (info_map_from m artifacts) id ≡ info_or (info_at m id) (last_with id artifacts)
unfolding info_map_from last_with info_at
info_map_from-at m [] id ne = refl
info_map_from-at m (a ∷ rest) id ne =
    info_map_from-at (if a.id == 0 then m else info_of a ∷ m) rest id ne
    ∙ info_or-last m a id (last_with id rest) ne

-- When the artifacts of a section have arrived, the data at an id other than 0 is that of the last
-- artifact with the id in the answer, and there is none where the answer has no such artifact.
component_did_mount-latest :
    (m : InfoMap) (artifacts : List Resource) (id : ℕ)
    → id ≢ 0
    → info_at (component_did_mount m (answered artifacts)) id
      ≡ info_or none (last_with id artifacts)
unfolding component_did_mount info_at
component_did_mount-latest m artifacts id ne = info_map_from-at [] artifacts id ne
