-- ===== src/Tests/Watcher.antt =====
-- The watcher over a list of artifacts.
use metadata.Prelude.{◌≡◌, refl, List, [], ◌∷◌, ◌++◌, some, inr}
use metadata.Prelude.Texts.{Text, text}
use metadata.Prelude.Results.{Result, ok}
use metadata.Service.{pos}
use metadata.Watcher.{Artifact, Client, MetaLogger, Object, object, added, hear_all}
use metadata.Watcher.Once.{Documented, AreDistinct, hear_all-AreDistinct}

abbrev list_client : Client
list_client = record {
  State = List Artifact;
  put_artifact_type = λ s name properties. (s, ok (pos 1));
  get_artifacts_by_type = λ s name. ok s;
  put_artifacts = λ s new. (s ++ new, ok tt);
}

abbrev pods : MetaLogger
pods = record {
  resource = record { group_kind = text "Pod"; version = text "v1" };
  type_id = pos 1;
}

same_list : {a b : List Artifact} → ◌≡◌ {A = Result Text (List Artifact)} (ok a) (ok b) → b ≡ a
same_list h = cc

abbrev documented : Documented list_client pods
documented = record {
  contents = λ s. s;
  reads = λ s artifacts h. same_list h;
  writes = λ s a. inr refl;
}

abbrev pod : Object
pod = record {
  uid = text "u1";
  name = text "p";
  self_link = text "/p";
  creation_timestamp = text "t";
}

-- The same pod is heard of twice.
hear_all-AreDistinct_example : AreDistinct (
    documented.contents (
      hear_all list_client
        (λ o. some (text "{}"))
        pods
        []
        (added (object pod) ∷ added (object pod) ∷ [])))
hear_all-AreDistinct_example =
    hear_all-AreDistinct list_client (λ o. some (text "{}")) pods documented []
      (added (object pod) ∷ added (object pod) ∷ []) tt
