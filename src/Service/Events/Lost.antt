-- ===== src/Service/Events/Lost.antt =====
-- The error of the store that ListEvents loses.
use metadata.Prelude.{◌≡◌, refl, [], ◌∷◌, some}
use metadata.Prelude.Texts.{Text, starts_with}
use metadata.Prelude.Results.{ok}
use metadata.Service.{ℤ, Store}
use metadata.Service.Names.{trim_prefix}
use metadata.Service.Ids.{parse_int}
use metadata.Service.Events.{kind_named, collection, events_of, collect, get_in_events, list_events}

-- When the store fails to give the events of an artifact or an execution and gives none with its
-- error, ListEvents answers as if there were none: with no events, and without an error.
pub list_events-lost :
    (st : Store) (s : st.State) (name : Text) (id : ℤ) (e : Text)
    → parse_int (trim_prefix name (collection (kind_named name))) ≡ some id
    → st.get_events (kind_named name) s (id ∷ []) ≡ ([], some e)
    → list_events st s name ≡ ok (record { events = []; artifacts = []; executions = [] })
unfolding list_events events_of get_in_events collect parse_int starts_with
list_events-lost st s name id e parsed failed = rw (parsed, failed) refl
