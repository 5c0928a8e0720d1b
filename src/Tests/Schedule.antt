-- ===== src/Tests/Schedule.antt =====
-- The table with requests in flight, and turned forward to the last page, on small inputs.
use metadata.Prelude.{
  ◌+◌, inl, ℕ, zero, suc, ◌≡◌, ◌<◌, refl, true, false, [], ◌∷◌, none, some, length, arith, ◌==◌,
  if◌then◌else◌,
}
use metadata.Prelude.Texts.{Text, text}
use metadata.Value.{is_empty}
use metadata.Rows.{ListRequest}
use metadata.Table.State.{CustomTable, construct}
use metadata.Table.Events.{
  load, page_changed, stay, token, rejected, start, Started, page_changed_start,
}
use metadata.Table.Events.Turning.{token_at, IsLast}
use metadata.Table.Events.Turning.LastPage.{next_token, opened, turn_forward, turn_forward-IsLast}
use metadata.Table.Events.Tokens.{page_request}
use metadata.Table.View.{footer_of}
use metadata.Table.Schedule.{World, Reach, here, next, handled, answered, left, launched, received}
use metadata.Table.Schedule
use metadata.Table.Schedule.Safety.{IsSafe, run-IsSafe}
use metadata.Table.Schedule.Settling.{Answers, settles}
use metadata.Tests.Table.{name_column, id_column}

abbrev new_world : World
new_world = Schedule.opened (name_column ∷ id_column ∷ []) none none

abbrev first_started : Started
first_started = page_changed_start new_world.table stay

-- The first load is waited for; and then it has been answered.
abbrev loading_world : World
loading_world = launched new_world first_started

abbrev loaded_world : World
loaded_world = received loading_world first_started.pending (token (text "p")) []

loading_world-Reach : Reach new_world loading_world
unfolding start
loading_world-Reach = next here (handled new_world (page_changed stay) first_started refl)

loaded_world-Reach : Reach new_world loaded_world
loaded_world-Reach =
    next loading_world-Reach
      (answered loading_world [] [] first_started.pending (token (text "p")) refl)

run-IsSafe_example : IsSafe loaded_world
run-IsSafe_example =
    run-IsSafe (name_column ∷ id_column ∷ []) none none loaded_world loaded_world-Reach

settles_example :
    ((v : World) × Answers loading_world (rejected ∷ []) v)
    × ((v : World)
        → Answers loading_world (rejected ∷ []) v
        → (length (rejected ∷ []) + length v.in_flight ≡ length loading_world.in_flight)
          × (v.table.is_mounted ≡ true → v.table.state.is_busy ≡ false))
settles_example =
    settles (name_column ∷ id_column ∷ []) none none loading_world (rejected ∷ [])
      loading_world-Reach (omega arith) (inl (omega arith))

-- A server with three pages: the tokens are "x" and "xx".
abbrev three_pages : ListRequest → Text
three_pages r = elim r.page_token [ none ↦ [] | some t ↦ if length t == 2 then [] else b'x' ∷ t ]

abbrev three_next : Text → Text
three_next = next_token three_pages (name_column ∷ id_column ∷ []) none none

before_last : (k : ℕ) → k < 2 → is_empty (token_at three_next (suc k)) ≡ false
unfolding construct page_request load
before_last zero h = refl
before_last (suc zero) h = refl
before_last (suc (suc k)) h = absurd (omega arith)

at_last : is_empty (token_at three_next 3) ≡ true
unfolding construct page_request load
at_last = refl

abbrev last_table : CustomTable
last_table =
    turn_forward three_pages 2 (opened three_pages (name_column ∷ id_column ∷ []) none none)

turn_forward-IsLast_example :
    IsLast three_pages 2 last_table × ((footer_of last_table.state).forward_disabled ≡ true)
turn_forward-IsLast_example =
    turn_forward-IsLast three_pages (name_column ∷ id_column ∷ []) none none 2 (omega arith)
      before_last at_last
