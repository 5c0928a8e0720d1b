-- ===== src/Lists/Executions/Reloading.antt =====
-- What `reload` of the execution page does with requests after the first, and with errors.
use metadata.Prelude.{
  ◌≡◌, refl, true, false, List, [], ◌∷◌, ◌++◌, Bool-cases, inl, inr, ◌⊎◌, ◌∙◌, ap,
}
use metadata.Prelude.Texts.{text}
use metadata.Value.{str}
use metadata.Rows.{ListRequest}
use metadata.Resources.{Resource}
use metadata.Utils.Group.{group_rows}
use metadata.Utils.Messages.{Thrown, shown}
use metadata.Shell.Page.{clear_banner}
use metadata.Lists.Rows.{Builtins, get_rows_from_executions, grouped, filtered}
use metadata.Utils.Compare.{row_compare_fn}
use metadata.Lists.Executions.{
  execution_columns, ExecutionList, Reply, answered, thrown, Replies, is_not_found, get_executions,
  load_executions, show_rows, report, reload, with_types, load_first,
}
use metadata.Resources.{has_types}

get_executions-not_found :
    (r : Reply (List Resource)) (e : Thrown)
    → r ≡ thrown e
    → is_not_found e.code ≡ true
    → get_executions r ≡ answered []
unfolding get_executions
get_executions-not_found r e failed found = rw failed (rw found refl)

get_executions-failed :
    (r : Reply (List Resource)) (e : Thrown)
    → r ≡ thrown e
    → is_not_found e.code ≡ false
    → get_executions r
      ≡ thrown (record e { message = str (text "Failed getting executions: " ++ shown e.message) })
unfolding get_executions
get_executions-failed r e failed found = rw failed (rw found refl)

module _ (b : Builtins) (uri_error : Thrown) where
  with_types-known :
      (p : ExecutionList) (r : Replies)
      → has_types p.execution_types ≡ true
      → with_types b uri_error p r ≡ p
  unfolding with_types
  with_types-known p r typed = rw typed refl

  reload-typed :
      (p : ExecutionList) (request : ListRequest) (r : Replies)
      → has_types p.execution_types ≡ true
      → reload b uri_error p request r ≡ load_first b uri_error p.executions p request r
  unfolding reload
  reload-typed p request r typed k =
      let q = with_types-known p r typed k in load_first b uri_error q.executions q request r

  -- Once the page has executions and their types, a reload changes nothing: neither its rows nor
  -- their order depend on the request any more.
  reload-ignores :
      (p : ExecutionList) (request : ListRequest) (r : Replies) (e : Resource)
      (rest : List Resource)
      → has_types p.execution_types ≡ true
      → p.executions ≡ e ∷ rest
      → reload b uri_error p request r ≡ p
  unfolding load_first
  reload-ignores p request r e rest typed some_executions =
      reload-typed p request r typed ∙ (λ k. load_first b uri_error (some_executions k) p request r)

  -- While there are no executions, a reload does what the answer to the request for them says.
  reload-loads :
      (p : ExecutionList) (request : ListRequest) (r : Replies)
      → has_types p.execution_types ≡ true
      → p.executions ≡ []
      → reload b uri_error p request r
        ≡ load_executions b uri_error p request (get_executions r.executions)
  unfolding load_first
  reload-loads p request r typed no_executions =
      reload-typed p request r typed ∙ (λ k. load_first b uri_error (no_executions k) p request r)

  load_executions-nothing :
      (p : ExecutionList) (request : ListRequest)
      → load_executions b uri_error p request (answered []) ≡ (
          let g = group_rows (b.sort (row_compare_fn b.to_number request execution_columns) []) in
          record p {
            executions = [];
            rows = g.collapsed_rows;
            expanded_rows = g.expanded_rows;
            host = clear_banner p.host;
          })
  unfolding load_executions show_rows get_rows_from_executions grouped filtered
  load_executions-nothing p request = refl

  -- A failed request for the first executions: the code 5 counts as an answer without executions and
  -- clears the banner; any other failure is reported, and the page's rows stay.
  reload-failure :
      (p : ExecutionList) (request : ListRequest) (r : Replies) (e : Thrown)
      → has_types p.execution_types ≡ true
      → p.executions ≡ []
      → r.executions ≡ thrown e
      → ((is_not_found e.code ≡ true)
          × ((reload b uri_error p request r).host ≡ clear_banner p.host)
          × ((reload b uri_error p request r).executions ≡ []))
        ⊎ ((is_not_found e.code ≡ false)
            × (reload b uri_error p request r
                ≡ report p (record e {
                  message = str (text "Failed getting executions: " ++ shown e.message);
                })))
  unfolding load_executions
  reload-failure p request r e typed no_executions failed =
      elim (Bool-cases (is_not_found e.code)) [
        | inl found ↦
            let done =
              reload-loads p request r typed no_executions
              ∙ ap (load_executions b uri_error p request)
                  (get_executions-not_found r.executions e failed found)
              ∙ load_executions-nothing p request in
            inl (found, ap (λ q. q.host) done, ap (λ q. q.executions) done)
        | inr found ↦ inr (
          found,
          reload-loads p request r typed no_executions
              ∙ ap (load_executions b uri_error p request)
                  (get_executions-failed r.executions e failed found),
        )
      ]
