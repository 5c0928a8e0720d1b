-- ===== src/Shell/Links.antt =====
-- components/Router.tsx: the paths of the pages and `RoutePageFactory`; the links that the list
-- and detail pages make of them (`nameCustomRenderer`, `buildResourceDetailsPageRoute`).
pub mod Targets
use metadata.Prelude.{
  ℕ, zero, suc, Bool, true, false, List, [], ◌∷◌, ◌++◌, Option, none, some, if◌then◌else◌, ◌==◌,
}
use metadata.Prelude.Texts.{Text, text}
use metadata.Prelude.Numerals.{decimal}
use metadata.Prelude.Replace.{replace}

-- `RoutePage` and `RoutePrefix`.
abbrev pub artifacts_page : Text
artifacts_page = text "/artifacts"

abbrev pub artifact_details_page : Text
artifact_details_page = text "/artifact_types/:artifactType+/artifacts/:id"

abbrev pub executions_page : Text
executions_page = text "/executions"

abbrev pub execution_details_page : Text
execution_details_page = text "/execution_types/:executionType+/executions/:id"

abbrev pub artifact_prefix : Text
artifact_prefix = text "/artifact"

abbrev pub execution_prefix : Text
execution_prefix = text "/execution"

abbrev pub artifact_type_param : Text
artifact_type_param = text ":artifactType+"

abbrev pub execution_type_param : Text
execution_type_param = text ":executionType+"

abbrev pub id_param : Text
id_param = text ":id"

-- `RoutePageFactory.artifactDetails`.
unfoldable pub artifact_details : Text → ℕ → Text
artifact_details artifact_type artifact_id =
    replace (replace artifact_details_page artifact_type_param artifact_type) id_param
      (decimal artifact_id)

-- The text up to the next colon.
pub part_of : Text → Text
part_of [] = []
part_of (c ∷ s) = let rest = part_of s in if c == b':' then [] else c ∷ rest

-- The text after the first colon, if there is one.
pub after_colon : Text → Option Text
after_colon [] = none
after_colon (c ∷ s) = let rest = after_colon s in if c == b':' then some s else rest

-- `id.split(':')`, of which the first two parts are used; the second may be undefined.
unfoldable pub split_colon : Text → Text × Option Text
unfolding part_of after_colon
split_colon s = (part_of s, elim (after_colon s) [ none ↦ none | some t ↦ some (part_of t) ])

abbrev pub or_undefined : Option Text → Text
or_undefined none = text "undefined"
or_undefined (some t) = t

-- The link of a cell in the first two columns of the artifact list.
unfoldable pub artifact_link : Text → Text
artifact_link row_id =
    let (artifact_type, artifact_id) = split_colon row_id in
    replace (replace artifact_details_page artifact_type_param artifact_type) id_param
      (or_undefined artifact_id)

unfoldable pub execution_link : Text → Text
execution_link row_id =
    let (execution_type, execution_id) = split_colon row_id in
    replace (replace execution_details_page execution_type_param execution_type) id_param
      (or_undefined execution_id)

-- The id that the list pages give a row: the type's name and the resource's number.
unfoldable pub row_id : Text → ℕ → Text
row_id type id = type ++ (text ":" ++ decimal id)

-- `ArtifactDetails.buildResourceDetailsPageRoute`; `is_artifact` is the test by `instanceof`.
unfoldable pub build_resource_details_page_route : Bool → ℕ → Text → Text
build_resource_details_page_route is_artifact id type_name =
    replace
      (if is_artifact
        then artifact_details type_name id
        else replace execution_details_page execution_type_param type_name)
      id_param (decimal id)
