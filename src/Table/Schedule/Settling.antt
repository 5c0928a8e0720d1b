-- ===== src/Table/Schedule/Settling.antt =====
-- components/CustomTable.tsx: the requests in flight are answered in some order, and no new one starts.
use metadata.Prelude.{
  ◌<◌, ◌≤◌, suc, ◌+◌, ◌≡◌, ◌⊎◌, refl, ap, true, false, List, Option, [], ◌∷◌, ◌++◌, arith, length,
  length-append, Bool-cases, inl, inr,
}
use metadata.Table.State.{SortOrder}
use metadata.Rows.{Column}
use metadata.Prelude.Texts.{Text}
use metadata.Table.Events.{Pending, Reply}
use metadata.Table.Schedule.{World, opened, received, answered, Reach, here, next}
use metadata.Table.Schedule.Safety.{IsSafe, finish-is_busy, opened-IsSafe, Reach-IsSafe}

-- As many of the requests in flight have been answered as there are replies, in some order. The last
-- reply comes first.
pub data Answers (w : World) : List Reply → World → Type 0 where
  pending : Answers w [] w
  reply :
      {rs : List Reply} {u : World} (before after : List Pending) (p : Pending) (r : Reply)
      → Answers w rs u
      → u.in_flight ≡ before ++ p ∷ after
      → Answers w (r ∷ rs) (received u p r (before ++ after))

Answers-Reach : {w v : World} {rs : List Reply} → Answers w rs v → Reach w v
Answers-Reach pending = here
Answers-Reach (reply before after p r h e) = next (Answers-Reach h) (answered _ before after p r e)

length-without :
    (xs : List Pending) (y : Pending) (ys us : List Pending)
    → us ≡ xs ++ y ∷ ys
    → suc (length (xs ++ ys)) ≡ length us
length-without xs y ys us e = rw (e, length-append xs (y ∷ ys), length-append xs ys) (omega arith)

length-Answers :
    {w v : World} {rs : List Reply}
    → Answers w rs v
    → length rs + length v.in_flight ≡ length w.in_flight
length-Answers pending = omega arith
length-Answers (reply {u = u} before after p r h e) =
    let rest = length-Answers h in
    let one = length-without before p after u.in_flight e in omega arith

idle :
    (w : World)
    → IsSafe w
    → w.in_flight ≡ []
    → w.table.is_mounted ≡ true
    → w.table.state.is_busy ≡ false
idle w safe e m = elim (Bool-cases w.table.state.is_busy) [
  | inl busy ↦ let h = safe.busy m busy in let k = ap length e in absurd (omega arith)
  | inr free ↦ free
]

positive-cons :
    (xs : List Pending) → 0 < length xs → (p : Pending) × (ps : List Pending) × (xs ≡ p ∷ ps)
positive-cons [] h = absurd (omega arith)
positive-cons (x ∷ xs) h = (x, xs, refl)

-- The oldest request is answered each time.
answered_first :
    (w : World) (rs : List Reply) → length rs ≤ length w.in_flight → (v : World) × Answers w rs v
answered_first w [] h = (w, pending)
answered_first w (r ∷ rs) h =
    let (v, answers) = answered_first w rs (omega arith) in
    let left = length-Answers answers in
    let (p, ps, e) = positive-cons v.in_flight (omega arith) in (_, reply [] ps p r answers e)

-- After an answer the table is not busy, whatever is still in flight.
Answers-idle :
    {w v : World} {rs : List Reply}
    → IsSafe w
    → Answers w rs v
    → (0 < length rs) ⊎ (w.in_flight ≡ [])
    → v.table.is_mounted ≡ true
    → v.table.state.is_busy ≡ false
Answers-idle safe pending (inl n) m = absurd (omega arith)
Answers-idle safe pending (inr e) m = idle _ safe e m
Answers-idle safe (reply {u = u} before after p r h e) n m = finish-is_busy u.table p r m

-- A table settles. From every state that events and replies lead to, any replies, as many as there
-- are requests in flight or fewer, can come; and in whatever order the requests are answered by them,
-- the others stay in flight, and the table, if it is still mounted, is not busy as soon as there has
-- been one reply, or if no request was in flight: with as many replies as requests it is idle, and
-- with fewer it seems to be.
pub settles :
    (columns : List Column) (sort_column : Option Text) (order : Option SortOrder) (w : World)
    (replies : List Reply)
    → Reach (opened columns sort_column order) w
    → length replies ≤ length w.in_flight
    → (0 < length replies) ⊎ (w.in_flight ≡ [])
    → ((v : World) × Answers w replies v)
      × ((v : World)
          → Answers w replies v
          → (length replies + length v.in_flight ≡ length w.in_flight)
            × (v.table.is_mounted ≡ true → v.table.state.is_busy ≡ false))
settles columns sort_column order w replies reach enough some_reply =
    let safe = Reach-IsSafe (opened-IsSafe columns sort_column order) reach in
    (
      answered_first w replies enough,
      λ v answers. (length-Answers answers, Answers-idle safe answers some_reply),
    )
