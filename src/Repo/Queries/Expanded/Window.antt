-- ===== src/Repo/Queries/Expanded/Window.antt =====
-- `ListEvents` of core/repo/events_queries.go over a window of time.
use mathlib.Core.List.Permᴰ
use dankcalendar.Base.{
  ℤ, ◌+ℤ◌, ◌-ℤ◌, ◌≤ℤ◌, true, List, [], length, Memᴰ, Permᴰ, Memᴰ-perm, Option, some, int_eq,
  ℤ-discrete, ◌≡◌, refl, ap, ◌∙◌, ◌↔◌, arith, int_laws,
}
use dankcalendar.Repo.Store.{ok, EventRow, Tables, World, query}
use dankcalendar.Repo.Queries.{ListEventsParams, sql_page, page}
use dankcalendar.Repo.Queries.Pages.{page-sql_page}
use dankcalendar.Repo.Queries.Expanded.{
  Env, occurrence, overridden_occurrences, list_events_expanded, list_events_within, list_events,
}
use dankcalendar.Repo.Queries.Expanded.Listed.{
  Listed, concrete, occurring, unexpanded, gathered, gathered-Listed, Listed-gathered,
}

abbrev pub settled : Tables → World
settled t = record { tables = t; incidents = [] }

module _ (env : Env) (from to : ℤ) (t : Tables) (p : ListEventsParams)
    (order sort : List EventRow → List EventRow) where
  expanded_run : list_events_expanded env sort from to p (settled t) ≡ (
    ok (
      page p.limit p.offset (sort (gathered env p.filter from to t)),
      length (sort (gathered env p.filter from to t)),
    ),
    settled t,
  )
  unfolding list_events_expanded query overridden_occurrences
  expanded_run = refl

  within_run :
      p.filter.include_recurring ≡ true
      → (a b : Option ℤ) → a ≡ some from
      → b ≡ some to
      → list_events_within env order sort a b p (settled t)
        ≡ list_events_expanded env sort from to p (settled t)
  unfolding list_events_within
  within_run h a b e f = rw e (rw f (rw h refl))

  -- `ListEvents` over a window with recurring events returns, while no statement fails, the page of one
  -- list that LIMIT and OFFSET ask for, with the length of the list, if sorting permutes. A row is in
  -- that list exactly if it is stored, in scope, overlaps the window, is neither cancelled nor
  -- recurring; or it is the occurrence of a recurring row in scope at a start that the expansion gives,
  -- lies in the window, and no stored exception in scope has the key of that occurrence; or it is a
  -- recurring row in the window whose expansion fails.
  pub expanded_listing :
      ((xs : List EventRow) → Permᴰ xs (sort xs))
      → p.filter.include_recurring ≡ true
      → p.filter.from ≡ some from
      → p.filter.to ≡ some to
      → (rows : List EventRow) × (list_events env order sort p (settled t)
          ≡ (ok (sql_page p.limit p.offset rows, length rows), settled t))
        × ((r : EventRow) → Memᴰ r rows ↔ Listed env p.filter from to t r)
  unfolding list_events
  expanded_listing permutes h a b =
      let rows = sort (gathered env p.filter from to t) in
      (
        rows,
        within_run h p.filter.from p.filter.to a b
            ∙ expanded_run
            ∙ ap (λ xs. (ok (xs, length rows), settled t)) (page-sql_page p.limit p.offset rows),
        λ r. (
          λ k. gathered-Listed env p.filter from to t a b r (Memᴰ-perm (Permᴰ.symm (permutes _)) k),
          λ k. Memᴰ-perm (permutes _) (Listed-gathered env p.filter from to t a b r k),
        ),
      )

occurrence-start : (m : EventRow) (start : ℤ) → (occurrence m start).start ≡ start
unfolding occurrence
occurrence-start m start = elim (ℤ-discrete start m.start) [
  | yes e ↦ ground (arith, e)
  | no e ↦ ground (arith, e)
]

occurrence-end : (m : EventRow) (start : ℤ) → (occurrence m start).end ≡ start +ℤ (m.end -ℤ m.start)
unfolding occurrence
occurrence-end m start = elim (ℤ-discrete start m.start) [
  | yes e ↦
      let whole : m.end ≡ start +ℤ (m.end -ℤ m.start) = rw e (omega int_laws) in
      ground (arith, e, whole)
  | no e ↦ ground (arith, e)
]

module _ (env : Env) (p : ListEventsParams) (from to : ℤ) (t : Tables) where
  -- A row that belongs to the listing of a window ends at its beginning or later, and starts at its end
  -- or earlier: also an occurrence of a recurring row, whose times are moved.
  listed_in_window :
      (r : EventRow) → Listed env p.filter from to t r → (from ≤ℤ r.end) × (r.start ≤ℤ to)
  listed_in_window r (concrete stored scope after before live once) = (after, before)
  listed_in_window r (occurring m start starts h e given after before free same) =
      let e : r.end ≡ start +ℤ (m.end -ℤ m.start) = ap (λ x. x.end) same ∙ occurrence-end m start in
      let b : r.start ≡ start = ap (λ x. x.start) same ∙ occurrence-start m start in
      (rw e (omega arith), rw b (omega arith))
  listed_in_window r (unexpanded m h e after before same) =
      (rw same (omega arith), rw same (omega arith))
