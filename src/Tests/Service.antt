-- ===== src/Tests/Service.antt =====
-- The metadata service over a small store in memory.
use metadata.Prelude.{
  ◌≡◌, refl, true, List, [], ◌∷◌, ◌++◌, Option, none, some, is_some, if◌then◌else◌, get_elem?,
  length, All, arith,
}
use metadata.Prelude.Texts.{Text, text, text_eq, starts_with, includes}
use metadata.Prelude.Results.{Result, ok, err}
use metadata.Service.{
  artifact, execution, ℤ, pos, TypeMessage, Resource, Event, Store, malformed_name,
}
use metadata.Service.Ids.{name_of, parse_int}
use metadata.Service.Ids.Named.{without-All}
use metadata.Service.Resources.{create, get_one, get_stored}
use metadata.Service.Resources.Creating.{create-get_stored, create-malformed}
use metadata.Service.Events.{EventsResponse, list_events, found}
use metadata.Service.Events.Collected.{occurs, answer, list_events-found}
use metadata.Service.Events.Lost.{list_events-lost}

abbrev model_type : TypeMessage
model_type = record { id = some (pos 7); name = text "model"; properties = [] }

abbrev Db : Type 0
Db = List (Resource Text)

abbrev stored : Db → Resource Text → Resource Text
stored s r = record r { id = some (pos (length s)) }

abbrev put_one : Db → List (Resource Text) → Db × Result Text (List ℤ)
put_one s [] = (s, ok [])
put_one s (r ∷ _) = (s ++ stored s r ∷ [], ok (pos (length s) ∷ []))

abbrev by_id : Db → List ℤ → Result Text (List (Resource Text))
by_id s (pos i ∷ []) = elim (get_elem? s i) [ none ↦ ok [] | some r ↦ ok (r ∷ []) ]
by_id s _ = ok []

abbrev events_in : Db → List Event × Option Text
events_in [] = ([], some (text "no events"))
events_in (_ ∷ _) = (record { artifact_id = pos 0; execution_id = pos 0 } ∷ [], none)

abbrev memory : Store
memory = record {
  State = Db;
  Rest = Text;
  put_type = λ k s t o. (s, ok (pos 7));
  get_type =
      λ k s name. if text_eq name (text "model") then ok model_type else err (text "no type");
  get_types = λ k s. ok (model_type ∷ []);
  put = λ k s rs. put_one s rs;
  get_by_id = λ k s ids. by_id s ids;
  get_all = λ k s. ok s;
  get_by_type = λ k s name. ok s;
  put_events = λ s es. (s, ok tt);
  get_events = λ k s ids. events_in s;
}

abbrev fresh : Resource Text
fresh = record { id = none; type_id = none; rest = text "m" }

abbrev one_stored : Db
one_stored = record { id = some (pos 0); type_id = some (pos 7); rest = text "a" } ∷ []

abbrev two_stored : Db
two_stored =
    one_stored ++ record { id = some (pos 1); type_id = some (pos 7); rest = text "m" } ∷ []

abbrev second : Resource Text
second = record { id = some (pos 1); type_id = some (pos 7); rest = text "m" }

create-get_stored_example :
    (create memory artifact one_stored (text "artifact_types/model") (some fresh)
      ≡ (two_stored, ok second))
    × (get_stored memory artifact two_stored
          (name_of artifact (text "artifact_types/model") (pos 1))
        ≡ ok second)
create-get_stored_example =
    create-get_stored memory artifact one_stored fresh model_type (text "model") 1 second
      (without-All 10 (text "model") refl) (omega arith) refl refl refl refl

create-malformed_example :
    create memory artifact one_stored (text "model") (some fresh)
    ≡ (two_stored, err (malformed_name (name_of artifact (text "model") (pos 1))))
unfolding includes
create-malformed_example =
    create-malformed memory artifact one_stored fresh model_type (text "model") 1 refl refl refl
      refl

abbrev first_response : EventsResponse memory
first_response = record {
  events = record { artifact_id = pos 0; execution_id = pos 0 } ∷ [];
  artifacts = (pos 0, record { id = some (pos 0); type_id = some (pos 7); rest = text "a" }) ∷ [];
  executions = (pos 0, record { id = some (pos 0); type_id = some (pos 7); rest = text "a" }) ∷ [];
}

listed : list_events memory one_stored (text "artifacts/0") ≡ ok first_response
unfolding list_events parse_int starts_with get_one
listed = refl

list_events-found_example :
    (found (pos 0) first_response.artifacts ≡ (
      if occurs artifact (pos 0) first_response.events
      then answer (get_one memory artifact one_stored (pos 0))
      else none))
    × (found (pos 0) first_response.executions ≡ (
        if occurs execution (pos 0) first_response.events
        then answer (get_one memory execution one_stored (pos 0))
        else none))
    × All (λ e. is_some (found e.artifact_id first_response.artifacts) ≡ true) first_response.events
    × All
        (λ e. is_some (found e.execution_id first_response.executions) ≡ true)
        first_response.events
list_events-found_example =
    list_events-found memory one_stored (text "artifacts/0") first_response (pos 0) listed

list_events-lost_example :
    list_events memory [] (text "artifacts/0")
    ≡ ok (record { events = []; artifacts = []; executions = [] })
unfolding parse_int starts_with
list_events-lost_example =
    list_events-lost memory [] (text "artifacts/0") (pos 0) (text "no events") refl refl
