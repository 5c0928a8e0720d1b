-- ===== src/Table/Schedule.antt =====
-- components/CustomTable.tsx with its requests in flight: handlers start at any time, and the replies
-- come in any order.
pub mod Safety
pub mod Settling
pub mod Leaving
use metadata.Prelude.{◌≡◌, List, [], ◌∷◌, ◌++◌, Option, some}
use metadata.Prelude.Texts.{Text}
use metadata.Rows.{Column}
use metadata.Table.State.{CustomTable, SortOrder, construct}
use metadata.Table.Events.{
  Event, Pending, Reply, Started, start, finish, handle_filter_change, debounce_fires,
  component_will_unmount,
}

-- The table, and what its handlers that wait for a reply will go on with.
pub record World : Type 0 where
  pub table : CustomTable
  pub in_flight : List Pending

abbrev pub opened : List Column → Option Text → Option SortOrder → World
opened columns sort_column order = record {
  table = construct columns sort_column order;
  in_flight = [];
}

abbrev pub launched : World → Started → World
launched w s = record { table = s.table; in_flight = w.in_flight ++ s.pending ∷ [] }

abbrev pub received : World → Pending → Reply → List Pending → World
received w p r rest = record { table = finish w.table p r; in_flight = rest }

pub data Step : World → World → Type 0 where
  handled : (w : World) (e : Event) (s : Started) → start w.table e ≡ some s → Step w (launched w s)
  answered :
      (w : World) (before after : List Pending) (p : Pending) (r : Reply)
      → w.in_flight ≡ before ++ p ∷ after
      → Step w (received w p r (before ++ after))
  typed :
      (w : World) (value : Text) → Step w (record w { table = handle_filter_change w.table value })
  fired :
      (w : World) (c : CustomTable) (e : Event) (s : Started)
      → debounce_fires w.table ≡ some (c, e)
      → start c e ≡ some s
      → Step w (launched w s)
  left : (w : World) → Step w (record w { table = component_will_unmount w.table })

pub data Reach (w : World) : World → Type 0 where
  here : Reach w w
  next : {u v : World} → Reach w u → Step u v → Reach w v
