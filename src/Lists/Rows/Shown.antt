-- ===== src/Lists/Rows/Shown.antt =====
-- Which rows the list pages show for a request.
use mathlib.Core.List.{Perm}
use mathlib.Core.List.Perm
use metadata.Prelude.{
  ◌≡◌, refl, Bool, true, false, List, [], ◌∷◌, ◌++◌, Option, none, some, filter_by, if◌then◌else◌,
}
use metadata.Rows.{Row, Column, ListRequest}
use metadata.Utils.Group.{CollapsedAndExpandedRows, group_rows}
use metadata.Utils.Group.Kept.{group_rows-perm, ids, all_hidden}
use metadata.Utils.Compare.{Sign, row_compare_fn}
use metadata.Lists.Rows.{Builtins, grouped, filtered, filter_fn}

module _ (b : Builtins) where
  pub grouped-perm :
      (request : ListRequest) (columns : List Column) (rows kept : List Row)
      (g : CollapsedAndExpandedRows)
      → ((f : Row → Row → Sign) (rs : List Row) → Perm (b.sort f rs) rs)
      → filtered b request rows ≡ some kept
      → grouped b request columns rows ≡ some g
      → Perm (ids g.collapsed_rows ++ ids (all_hidden g.expanded_rows)) (ids kept)
  unfolding grouped
  grouped-perm request columns rows kept g permutes f h =
      let sorted = b.sort (row_compare_fn b.to_number request columns) kept in
      let found : grouped b request columns rows ≡ some (group_rows sorted) =
        rw (f, grouped) refl in
      let same : group_rows sorted ≡ g = cc in
      rw (← same) (Perm.trans (group_rows-perm sorted) (Perm.map (λ r. r.id) (permutes _ kept)))

  -- The filter function keeps the row.
  abbrev pub is_kept : ListRequest → Row → Bool
  is_kept request r = elim (filter_fn b request r) [ none ↦ false | some keep ↦ keep ]

  filtered-kept :
      (request : ListRequest) (rows kept : List Row)
      → filtered b request rows ≡ some kept
      → kept ≡ filter_by (is_kept request) rows
  unfolding filtered
  filtered-kept request [] kept h = cc
  filtered-kept request (r ∷ rows) kept h =
      through (filter_fn b request r) (filtered b request rows) (filtered-kept request rows) h
    where
      through :
          (o : Option Bool) (more : Option (List Row))
          → ((rest : List Row) → more ≡ some rest → rest ≡ filter_by (is_kept request) rows)
          → elim o [
            | none ↦ none
            | some keep ↦ elim more [
              | none ↦ none
              | some rest ↦ some (if keep then r ∷ rest else rest)
            ]
          ]
            ≡ some kept
          → kept ≡ (
              if elim o [ none ↦ false | some keep ↦ keep ]
              then r ∷ filter_by (is_kept request) rows
              else filter_by (is_kept request) rows)
      through none more ih e = cc
      through (some keep) none ih e = cc
      through (some true) (some rest) ih e = let same = ih rest refl in cc
      through (some false) (some rest) ih e = let same = ih rest refl in cc

  filtered-is_some :
      (request : ListRequest) (columns : List Column) (rows : List Row)
      (g : CollapsedAndExpandedRows)
      → grouped b request columns rows ≡ some g
      → (kept : List Row) × (filtered b request rows ≡ some kept)
  unfolding grouped
  filtered-is_some request columns rows g h = through (filtered b request rows) h
    where
      through :
          (o : Option (List Row))
          → elim o [
            | none ↦ none
            | some kept ↦
                some (group_rows (b.sort (row_compare_fn b.to_number request columns) kept))
          ]
            ≡ some g
          → (kept : List Row) × (o ≡ some kept)
      through none e = cc
      through (some kept) e = (kept, refl)

  -- Where `sort` permutes and the filter throws for no row, the collapsed and the hidden rows of a
  -- request have together exactly the ids of the rows for which `rowFilterFn` gives true, each as
  -- often as it is among the rows.
  pub grouped-ids :
      (request : ListRequest) (columns : List Column) (rows : List Row)
      (g : CollapsedAndExpandedRows)
      → ((f : Row → Row → Sign) (rs : List Row) → Perm (b.sort f rs) rs)
      → grouped b request columns rows ≡ some g
      → Perm
          (ids g.collapsed_rows ++ ids (all_hidden g.expanded_rows))
          (ids (filter_by (is_kept request) rows))
  grouped-ids request columns rows g permutes h =
      let (kept, f) = filtered-is_some request columns rows g h in
      rw (← filtered-kept request rows kept f)
        (grouped-perm request columns rows kept g permutes f h)
