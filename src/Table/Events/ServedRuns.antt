-- ===== src/Table/Events/ServedRuns.antt =====
-- Whole runs of the table against a server.
use metadata.Prelude.{
  ◌≡◌, refl, ◌∙◌, sym, Bool, true, false, List, [], ◌∷◌, Option, All, Option-cases, inl, inr,
}
use mathlib.Core.Path.{subst}
use metadata.Prelude.Texts.{Text}
use metadata.Rows.{ListRequest, Column}
use metadata.Table.State.{SortOrder, CustomTable, construct}
use metadata.Table.Events.{
  Event, page_changed, request_sort, request_filter, request_rows_per_page, refresh, stay, token,
  start, perform,
}
use metadata.Table.Events.Paging.{IsValid, perform-IsValid, construct-IsValid}
use metadata.Table.Events.Tokens.{served, IsPaged, FromFirstPage, served-IsPaged, construct-IsPaged}
use metadata.Table.Events.Runs.{perform-mounted, construct-mounted}

abbrev pub is_filter : Event → Bool
is_filter (request_filter f) = true
is_filter _ = false

module _ (server : ListRequest → Text) where
  pub served_all : CustomTable → List Event → CustomTable
  served_all c [] = c
  served_all c (e ∷ es) = served_all (served server c e) es

  served-perform :
      (c : CustomTable) (e : Event) → (t : Text) × (served server c e ≡ perform c e (token t))
  unfolding served perform
  served-perform c e = elim (Option-cases (start c e)) [
    | inl h ↦ ([], rw (h, served, perform) refl)
    | inr (s, h) ↦ (server s.request, rw (h, served, perform) refl)
  ]

  served-IsValid :
      (c : CustomTable) (e : Event)
      → c.is_mounted ≡ true
      → IsValid c.state
      → IsValid (served server c e).state
  served-IsValid c e m v =
      let (t, h) = served-perform c e in
      subst (λ d. IsValid d.state) (sym h) (perform-IsValid c e (token t) m v)

  served-mounted : (c : CustomTable) (e : Event) → (served server c e).is_mounted ≡ c.is_mounted
  served-mounted c e =
      let (t, h) = served-perform c e in (λ k. (h k).is_mounted) ∙ perform-mounted c e (token t)

  from_first_page : (c : CustomTable) (e : Event) → is_filter e ≡ false → FromFirstPage server c e
  from_first_page c (page_changed o) h = tt
  from_first_page c (request_sort k) h = tt
  from_first_page c (request_filter f) h = cc
  from_first_page c (request_rows_per_page n) h = tt
  from_first_page c refresh h = tt

  served_all-IsPaged :
      (c : CustomTable) (es : List Event)
      → c.is_mounted ≡ true
      → IsValid c.state
      → IsPaged server c
      → All (λ e. is_filter e ≡ false) es
      → IsPaged server (served_all c es)
  unfolding served_all
  served_all-IsPaged c [] m v p h = p
  served_all-IsPaged c (e ∷ es) m v p (f, h) =
      served_all-IsPaged (served server c e) es (served-mounted c e ∙ m) (served-IsValid c e m v)
        (served-IsPaged server c e m (from_first_page c e f) v p) h

  opened-IsValid :
      (columns : List Column) (sort_column : Option Text) (order : Option SortOrder)
      → IsValid (served server (construct columns sort_column order) (page_changed stay)).state
  opened-IsValid columns sort_column order =
      let (t, h) = served-perform (construct columns sort_column order) (page_changed stay) in
      subst (λ d. IsValid d.state) (sym h) (construct-IsValid columns sort_column order t)

  -- However a table is used after its first load, with page changes, sorts, page sizes and refreshes
  -- that the server answers one after the other, its token list starts with the first page, and each
  -- token is the server's answer, in the query that the table then has, to the page before.
  pub served_all-construct :
      (columns : List Column) (sort_column : Option Text) (order : Option SortOrder)
      (es : List Event)
      → All (λ e. is_filter e ≡ false) es
      → IsPaged server
          (served_all (served server (construct columns sort_column order) (page_changed stay)) es)
  served_all-construct columns sort_column order es h =
      let opened = served server (construct columns sort_column order) (page_changed stay) in
      served_all-IsPaged opened es
        (served-mounted (construct columns sort_column order) (page_changed stay)
          ∙ construct-mounted columns sort_column order)
        (opened-IsValid columns sort_column order)
        (construct-IsPaged server columns sort_column order) h
