-- ===== src/Shell/BuildInfo.antt =====
-- components/SideNav.tsx: what the side bar shows of the build, and how it asks for it.
use metadata.Prelude.{Bool, [], ◌++◌, Option, none, some, if◌then◌else◌, take, or_else}
use metadata.Prelude.Texts.{Text, text}
use metadata.Value.{is_empty, text_or}

pub record BuildInfo : Type 0 where
  pub api_server_commit_hash : Option Text
  pub build_date : Option Text
  pub frontend_commit_hash : Option Text

pub record DisplayBuildInfo : Type 0 where
  pub commit_hash : Text
  pub commit_url : Text
  pub date : Text

unfoldable pub commit_hash_of : BuildInfo → Text
commit_hash_of b = text_or b.api_server_commit_hash (text_or b.frontend_commit_hash [])

abbrev pub repository_url : Text
repository_url = text "https://www.github.com/kubeflow/pipelines"

-- `date_text` is `new Date(...).toLocaleDateString('en-US')`.
unfoldable pub display_build_info : (Text → Text) → BuildInfo → DisplayBuildInfo
unfolding commit_hash_of
display_build_info date_text b =
    let commit_hash = commit_hash_of b in
    record {
      commit_hash = if is_empty commit_hash then text "unknown" else take 7 commit_hash;
      commit_url =
          repository_url ++ (if is_empty commit_hash then [] else text "/commit/" ++ commit_hash);
      date = elim b.build_date [
        | none ↦ text "unknown"
        | some d ↦ if is_empty d then text "unknown" else date_text d
      ];
    }

-- The address that `_fetch` asks.
unfoldable pub fetch_url : Text → Option Text → Option Text → Text
fetch_url path apis_prefix query =
    or_else apis_prefix []
    ++ (path ++ (let q = or_else query [] in if is_empty q then [] else text "?" ++ q))

pub record Response : Type 0 where
  pub is_ok : Bool
  pub body : Text

-- The text of the response, or the message of the error that is thrown.
pub data Outcome {ℓ} (A : Type ℓ) : Type ℓ where
  returned : A → Outcome A
  threw : Text → Outcome A

unfoldable pub fetch_text : Response → Outcome Text
fetch_text r = if r.is_ok then returned r.body else threw r.body

abbrev pub parse_error : Text → Text → Text → Text
parse_error path body err =
    text "Error parsing response for path: "
    ++ (path ++ (text "\n\nResponse was: " ++ (body ++ (text "\n\nError was: " ++ err))))

-- `_fetchAndParse`; `parse` gives what `JSON.parse` makes, or its error as `JSON.stringify` shows it.
unfoldable pub fetch_and_parse {ℓ} : {A : Type ℓ} → (Text → Outcome A) → Text → Response → Outcome A
unfolding fetch_text
fetch_and_parse parse path r = elim (fetch_text r) [
  | threw message ↦ threw message
  | returned body ↦ elim (parse body) [
    | returned a ↦ returned a
    | threw err ↦ threw (parse_error path body err)
  ]
]

-- What the bar's state has after `componentDidMount`, and what `setStateSafe` keeps out of it after
-- the bar is gone.
unfoldable pub shown_build_info :
    (Text → Outcome BuildInfo)
    → (Text → Text)
    → Bool
    → Option DisplayBuildInfo
    → Response
    → Option DisplayBuildInfo
unfolding fetch_and_parse display_build_info
shown_build_info parse date_text is_mounted before r =
    if is_mounted
    then elim (fetch_and_parse parse (text "/healthz") r) [
      | threw message ↦ none
      | returned b ↦ some (display_build_info date_text b)
    ]
    else before
