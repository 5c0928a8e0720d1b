-- ===== src/Tests/Sdk.antt =====
-- The Python client over a list of artifacts.
use metadata.Prelude.{
  sym, ◌∙◌, inl, Bool, false, ◌||◌, Bool-cases, if◌then◌else◌, arith, ℕ, suc, ◌≡◌, refl, List, [],
  ◌∷◌, ◌++◌, none, some, filter_by, length, inr, ap, true, false,
}
use metadata.Prelude.Texts.{Text, text, text_eq}
use metadata.Prelude.Results.{Result, ok, err}
use metadata.Sdk.{
  retried, Pb, Context, workspace_exists, Store, input, output, Artifact, is_duplicated, data_set,
  string,
}
use metadata.Sdk.Workspaces.{Workspace, plain, artifact_id, Flat, flat, list, new_workspace}
use metadata.Sdk.Logging.{Execution, prepared, with_groups, log_all}
use metadata.Sdk.Logging.{put_new}
use metadata.Sdk.Logging.Storing.{put_new-lost}
use metadata.Sdk.Logging.Duplicates.{AreApart}
use metadata.Sdk.Logging.Apart.{Documented, IsStandard, log_all-AreApart}
use metadata.Sdk.Workspaces.{named_context}
use metadata.Sdk.Workspaces.Again
use metadata.Sdk.Workspaces.Again.{new_workspace-again}
use metadata.Sdk.Listed.{Holds, list-logged}

abbrev add : List Pb → List Pb → List Pb × Result Text ℕ
add s [] = (s, err (text "nothing to put"))
add s (a ∷ _) = (s ++ record a { id = some (suc (length s)) } ∷ [], ok (suc (length s)))

-- The artifacts and the workspaces' contexts.
abbrev Db : Type 0
Db = List Pb × List Context

abbrev has_name : Text → List Context → Bool
has_name name [] = false
has_name name (c ∷ cs) = text_eq c.name name || has_name name cs

abbrev add_context : List Context → List Context → List Context × Result Text ℕ
add_context s [] = (s, err (text "nothing to put"))
add_context s (c ∷ _) =
    if has_name c.name s
    then (s, err (text "there is one of this name"))
    else (s ++ record c { id = some (suc (length s)) } ∷ [], ok (suc (length s)))

abbrev list_store : Store
list_store = record {
  State = Db;
  retries = λ s. 1;
  get_artifact_type = λ s name. ok 1;
  get_execution_type = λ s name. ok 2;
  get_artifacts_by_type = λ s name. ok s.0;
  get_artifacts_by_uri = λ s uri. ok (filter_by (λ a. text_eq a.uri uri) s.0);
  get_artifacts_by_id = λ s ids. ok [];
  put_artifacts = λ s new. let (artifacts, r) = add s.0 new in ((artifacts, s.1), r);
  put_executions = λ s executions. (s, ok 1);
  put_events = λ s events. (s, ok tt);
  put_links = λ s links. (s, ok tt);
  get_contexts_by_type = λ s name. ok s.1;
  put_context_type = λ s name properties. (s, ok 3);
  put_contexts = λ s new. let (contexts, r) = add_context s.1 new in ((s.0, contexts), r);
}

same_list : {a b : List Pb} → ◌≡◌ {A = Result Text (List Pb)} (ok a) (ok b) → b ≡ a
same_list h = cc

same_number : {m n : ℕ} → ◌≡◌ {A = Result Text ℕ} (ok m) (ok n) → m ≡ n
same_number h = cc

never_fails : {A : Type 0} {n : ℕ} {x : Text} → ◌≡◌ {A = Result Text ℕ} (ok n) (err x) → A
never_fails h = cc

abbrev documented : Documented list_store
documented = record {
  contents = λ s. s.0;
  finds = λ s uri pbs h. same_list h;
  puts = λ s a id h. ap (λ n. s.0 ++ record a { id = some n } ∷ []) (same_number h);
  refuses = λ s a x h. never_fails h;
  links = λ s ls. refl;
  events = λ s es. refl;
}

abbrev demo : Workspace
demo = record { name = text "demo"; description = none; labels = none; context_id = 4 }

abbrev first_run : Execution
first_run = record { id = 1; workspace = demo; run = some (text "run 1") }

abbrev table : Artifact
unfolding data_set
table =
    data_set (text "file:t") (text "t") (text "2020") none none (some (text "v1")) none (text "{}")

table-IsStandard : IsStandard table
unfolding is_duplicated table
table-IsStandard = record { class = refl; its_uri = refl }

-- The same data set is the output of an execution and then its input.
log_all-AreApart_example : AreApart (
    documented.contents (
      log_all list_store
        ([], [])
        (record { execution = first_run; artifact = table; direction = output }
          ∷ record { execution = first_run; artifact = table; direction = input }
          ∷ [])))
log_all-AreApart_example =
    log_all-AreApart list_store documented ([], []) _ (table-IsStandard, (table-IsStandard, tt)) tt

-- What the workspace lists for the data set.
abbrev listed : List Flat
listed =
    ((text "id", artifact_id (some 1))
      ∷ (text "workspace", plain (text "demo"))
      ∷ (text "run", plain (text "run 1"))
      ∷ (text "version", plain (text "v1"))
      ∷ (text "create_time", plain (text "2020"))
      ∷ (text "name", plain (text "t"))
      ∷ [])
    ∷ []

list-logged_example :
    (f : Flat) × (flat (λ t. some []) (record (prepared first_run 1 table) { id = some 1 }) ≡ ok f)
    × Holds listed f
unfolding list table with_groups
list-logged_example =
    list-logged list_store (λ t. some []) demo
      (record (prepared first_run 1 table) { id = some 1 } ∷ [], [])
      (some (text "kubeflow.org/alpha/data_set")) first_run 1 1 table [] [] listed refl refl refl
      refl

same_contexts : {a b : List Context} → ◌≡◌ {A = Result Text (List Context)} (ok a) (ok b) → b ≡ a
same_contexts h = cc

has_name-named_context :
    (name : Text) (cs : List Context)
    → has_name name cs ≡ false
    → named_context list_store name cs ≡ none
unfolding named_context
has_name-named_context name [] h = refl
has_name-named_context name (c ∷ cs) h =
    let other : text_eq c.name name ≡ false = ground arith in
    rw other (has_name-named_context name cs (ground arith))

added :
    (s : List Context) (c : Context) (id : ℕ)
    → (add_context s (c ∷ [])).1 ≡ ok id
    → (named_context list_store c.name s ≡ none)
      × ((add_context s (c ∷ [])).0 ≡ s ++ record c { id = some id } ∷ [])
added s c id h = elim (Bool-cases (has_name c.name s)) [
  | inl there ↦
      let refused : (add_context s (c ∷ [])).1 ≡ err (text "there is one of this name") =
        rw there refl in
      absurd (cc)
  | inr new ↦
      let answer : (add_context s (c ∷ [])).1 ≡ ok (suc (length s)) = rw new refl in
      (
        has_name-named_context c.name s new,
        rw new (ap (λ n. s ++ record c { id = some n } ∷ []) (same_number (sym answer ∙ h))),
      )
]

abbrev documented_contexts : Again.Documented list_store
documented_contexts = record {
  contexts = λ s. s.1;
  reads = λ s cs h. same_contexts h;
  puts = λ s t names c id type put. added t.1 c id put;
}

abbrev first_workspace : Workspace
first_workspace = record {
  name = text "demo";
  description = some (text "first");
  labels = none;
  context_id = 1;
}

abbrev first_context : Context
first_context = record {
  id = some 1;
  type_id = 3;
  name = text "demo";
  properties = (text "description", string (text "first")) ∷ [];
}

-- The workspace is new, and is then made again with other labels.
new_workspace-again_example :
    (new_workspace list_store ([], first_context ∷ []) (text "demo") none (some (text "{}")) true
      ≡ (
        ([], first_context ∷ []),
        ok (record first_workspace { description = none; labels = some (text "{}") }),
      ))
    × (new_workspace list_store ([], first_context ∷ []) (text "demo") none (some (text "{}")) false
        ≡ (([], first_context ∷ []), err (workspace_exists (text "demo") 1)))
unfolding new_workspace retried
new_workspace-again_example =
    new_workspace-again list_store documented_contexts ([], []) (text "demo") (some (text "first"))
      none none (some (text "{}")) true first_workspace (first_context ∷ []) refl refl

-- The store puts the first artifact in its place, and its answer is lost.
abbrev losing : List Pb × Result Text ℕ → Result Text ℕ
losing (_ ∷ [], r) = err (text "no answer")
losing (_, r) = r

abbrev losing_store : Store
losing_store = record list_store {
  put_artifacts =
      λ s new. let (artifacts, r) = add s.0 new in ((artifacts, s.1), losing (artifacts, r));
}

put_new-lost_example :
    ¬ AreApart (put_new losing_store first_run ([], []) table (prepared first_run 1 table)).0.0
put_new-lost_example =
    put_new-lost losing_store (λ s. s.0) (λ s ls. refl) first_run ([], []) table
      (prepared first_run 1 table) 0 1 2 (text "no answer") refl refl refl refl refl
