-- ===== src/Tests/Lists.antt =====
-- The list pages on small inputs.
use mathlib.Core.List.{Perm}
use mathlib.Core.List.Perm
use metadata.Prelude.{map, ℕ, ◌≡◌, refl, true, false, List, [], ◌∷◌, ◌++◌, none, some}
use metadata.Prelude.Texts.{Text, text}
use metadata.Rows.{ListRequest}
use metadata.Resources.{Resource, TypeMap, known_types}
use metadata.Utils.Group.{group_rows}
use metadata.Lists.Rows.{Builtins, get_rows_from_artifacts, artifact_row, grouped, filtered}
use metadata.Utils.Filter.{row_filter_fn}
use metadata.Lists.Executions.{ExecutionList, is_not_found, report}
use metadata.Lists.Executions
use metadata.Lists.Artifacts.{ArtifactList}
use metadata.Lists.Artifacts
use metadata.Lists.View.Opening.{first_request, opened, opened-shows}
use metadata.Shell.Links.{row_id}
use metadata.Utils.Group.Kept.{ids, all_hidden}
use metadata.Tests.Pages.{resource, failure, host, undefined_error}

abbrev builtins : Builtins
builtins = record {
  to_lower_case = λ t. t;
  decode_uri_component = λ t. some t;
  parse_json = λ t. none;
  to_text = λ j. [];
  to_number = λ t. none;
  sort = λ f rs. rs;
}

abbrev request : ListRequest
request = record {
  filter = none;
  order_ascending = false;
  page_size = some 10;
  page_token = none;
  sort_by = some (text "name desc");
}

abbrev types : TypeMap
types = (1, text "m") ∷ []

abbrev executions_page : List Resource → ExecutionList
executions_page executions = record {
  executions = executions;
  rows = [];
  expanded_rows = [];
  execution_types = some types;
  host = host;
}

abbrev failed_replies : ℕ → Executions.Replies
failed_replies code = record {
  types = Executions.answered types;
  executions = Executions.thrown (failure code);
}

abbrev reloaded : ExecutionList
reloaded =
    Executions.reload builtins undefined_error (executions_page []) request (failed_replies 5)

abbrev artifacts_page : ArtifactList
artifacts_page = record {
  artifacts = resource 1 ∷ [];
  rows = [];
  expanded_rows = [];
  artifact_types = some types;
  host = host;
}

abbrev type_name : TypeMap → ℕ → Text
type_name m id = text "m"

abbrev artifacts_reply : Artifacts.Replies
artifacts_reply = record {
  types = types;
  type_errors = [];
  artifacts = Artifacts.failed;
  late = false;
}

artifact_rows :
    get_rows_from_artifacts builtins
      (type_name types)
      request
      Artifacts.artifact_columns
      (resource 1 ∷ [])
    ≡ some (group_rows (artifact_row (type_name types) (resource 1) ∷ []))
unfolding get_rows_from_artifacts grouped filtered row_filter_fn
artifact_rows = refl

abbrev new_page : ArtifactList
new_page = record artifacts_page { artifacts = []; artifact_types = none }

abbrev found_reply : Artifacts.Replies
found_reply = record artifacts_reply { artifacts = Artifacts.found (resource 1 ∷ resource 2 ∷ []) }

opened-shows_example :
    ((first_request new_page).sort_by ≡ some (text "pipelineName"))
    × ((first_request new_page).order_ascending ≡ true)
    × ((opened builtins type_name new_page found_reply).1 ≡ true)
    × Perm
        (ids (opened builtins type_name new_page found_reply).0.rows
          ++ ids (all_hidden (opened builtins type_name new_page found_reply).0.expanded_rows))
        (map
          (λ a.
            row_id
              (type_name
                (known_types (opened builtins type_name new_page found_reply).0.artifact_types)
                a.type_id)
              a.id)
          (resource 1 ∷ resource 2 ∷ []))
opened-shows_example =
    opened-shows builtins type_name new_page found_reply (resource 1 ∷ resource 2 ∷ [])
      (λ f rs. Perm.refl rs) refl refl
