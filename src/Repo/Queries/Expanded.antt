-- ===== src/Repo/Queries/Expanded.antt =====
-- core/repo/events_queries.go: `ListEvents`, with recurring series expanded into occurrences.
pub mod Listed
pub mod Window
use dankcalendar.Base.{
  ℤ, pos, ◌+ℤ◌, ◌-ℤ◌, ltb_ℤ, leb_ℤ, ℕ, String, Bool, true, false, not, ◌&&◌, ◌||◌, List, [], ◌∷◌,
  ◌++◌, map, length, Option, none, some, ◌==◌, contains, string_eq, int_eq, if◌then◌else◌,
}
use dankcalendar.Calendar.Types.{zero_time}
use dankcalendar.Repo.Store.{
  Result, ok, err, EventRow, CalendarRow, Tables, M, ◌>>=◌, pure, raise, query,
}
use dankcalendar.Repo.Events.{select, is_not_found}
use dankcalendar.Recurrence.{Library, Series, expand}
use dankcalendar.Repo.Queries.{
  EventFilter, ListEventsParams, edge, edge_id, edge_zone, is_nil, is_cancelled_row, sql_page, page,
  recurrence_strings, occurrence_key, in_scope, in_base,
}

-- What the listing takes from outside: SQL's match of `ContainsFold`, `UTC().Format(time.RFC3339)`, the
-- libraries of recurrences, and the zone of the times that the database returns.
pub record Env : Type 1 where
  pub contains_fold : String → String → Bool
  pub rfc3339 : ℤ → String
  pub lib : Library
  pub row_zone : lib.Location

abbrev pub or_text : String → String → String
or_text tz other = if tz == "" then other else tz

abbrev duration : EventRow → ℤ
duration master = master.end -ℤ master.start

-- An occurrence of a master at a start.
unfoldable pub occurrence : EventRow → ℤ → EventRow
occurrence master start =
    if start == master.start
    then master
    else record master { recurring_id = master.uid; start = start; end = start +ℤ duration master }

abbrev or_start : Option ℤ → ℤ → ℤ
or_start none start = start
or_start (some original) start = original

module _ (env : Env) where
  -- The series of a master; its times come from the database in the zone `row_zone`.
  unfoldable pub series_of : List CalendarRow → EventRow → Series env.lib
  series_of cs master = record {
    start = master.start;
    start_location = env.row_zone;
    all_day = master.all_day;
    time_zone = or_text master.start_tz (edge_zone (edge cs master.calendar_id));
    rrule = recurrence_strings master.recurrence "rrule";
    rdate = recurrence_strings master.recurrence "rdate";
    exdate = recurrence_strings master.recurrence "exdate";
  }

  abbrev pub key_of : List CalendarRow → EventRow → ℤ → String
  key_of cs master start =
      occurrence_key env.rfc3339 (edge_id (edge cs master.calendar_id)) master.uid start

  -- The two tests of the loop over the starts.
  unfoldable pub shows : List CalendarRow → EventRow → ℤ → ℤ → List String → ℤ → Bool
  shows cs master from to suppressed start =
      (ltb_ℤ from (start +ℤ duration master) && ltb_ℤ start to)
      && not (contains suppressed (key_of cs master start))

  -- By what `Expand` returns: its starts, or an error, where the stored row stands for the series.
  unfoldable pub expansion :
      List CalendarRow → EventRow → ℤ → ℤ → List String → Option (List ℤ) → List EventRow
  expansion cs master from to suppressed none =
      if ltb_ℤ from master.end && ltb_ℤ master.start to then master ∷ [] else []
  expansion cs master from to suppressed (some starts) =
      map (occurrence master) (select (shows cs master from to suppressed) starts)

  abbrev pub starts_of : List CalendarRow → EventRow → ℤ → ℤ → Option (List ℤ)
  starts_of cs master from to = expand env.lib (series_of cs master) (from -ℤ duration master) to

  unfoldable pub expand_master : List CalendarRow → EventRow → ℤ → ℤ → List String → List EventRow
  expand_master cs master from to suppressed =
      expansion cs master from to suppressed (starts_of cs master from to)

  unfoldable pub expand_masters :
      List CalendarRow → List EventRow → ℤ → ℤ → List String → List EventRow
  expand_masters cs [] from to suppressed = []
  expand_masters cs (master ∷ masters) from to suppressed =
      expand_master cs master from to suppressed ++ expand_masters cs masters from to suppressed

  unfoldable pub exception_key : List CalendarRow → EventRow → String
  exception_key cs e =
      occurrence_key env.rfc3339 (edge_id (edge cs e.calendar_id)) e.recurring_id
        (or_start e.original_start e.start)

  unfoldable pub is_exception : EventFilter → List CalendarRow → EventRow → Bool
  is_exception f cs r = in_scope env.contains_fold f cs r && not (r.recurring_id == "")

  unfoldable pub overridden_occurrences : EventFilter → M (List String)
  overridden_occurrences f =
      query λ t. ok (map (exception_key t.calendars) (select (is_exception f t.calendars) t.events))

  unfoldable pub is_concrete : EventFilter → List CalendarRow → EventRow → Bool
  is_concrete f cs r =
      in_base env.contains_fold f cs r && (not (is_cancelled_row r.status) && is_nil r.recurrence)

  unfoldable pub is_master : EventFilter → ℤ → List CalendarRow → EventRow → Bool
  is_master f to cs r =
      in_scope env.contains_fold f cs r && (leb_ℤ r.start to && not (is_nil r.recurrence))

  abbrev find_masters : EventFilter → ℤ → Tables → Result (List EventRow × List CalendarRow)
  find_masters f to t = ok (select (is_master f to t.calendars) t.events, t.calendars)

  -- `sort_events` is `sort.Slice` by start; the calendars come with the rows, by `WithCalendar`.
  unfoldable pub list_events_expanded :
      (List EventRow → List EventRow) → ℤ → ℤ → ListEventsParams → M (List EventRow × ℕ)
  list_events_expanded sort_events from to p =
      query (λ t. ok (select (is_concrete p.filter t.calendars) t.events)) >>= λ concrete.
      query (find_masters p.filter to) >>= λ masters.
      overridden_occurrences p.filter >>= λ suppressed.
      let out = sort_events (concrete ++ expand_masters masters.1 masters.0 from to suppressed) in
      pure (page p.limit p.offset out, length out)

  -- `order_events` is SQL's ORDER BY start.
  unfoldable pub list_events_stored :
      (List EventRow → List EventRow) → ListEventsParams → M (List EventRow × ℕ)
  list_events_stored order_events p =
      query (λ t. ok (length (select (in_base env.contains_fold p.filter t.calendars) t.events)))
      >>= λ total.
          query (λ t. ok (
            sql_page p.limit p.offset
              (order_events (select (in_base env.contains_fold p.filter t.calendars) t.events))))
          >>= λ rows. pure (rows, total)

  unfoldable pub list_events_within :
      (List EventRow → List EventRow)
      → (List EventRow → List EventRow)
      → Option ℤ
      → Option ℤ
      → ListEventsParams
      → M (List EventRow × ℕ)
  list_events_within order_events sort_events (some from) (some to) p =
      if p.filter.include_recurring
      then list_events_expanded sort_events from to p
      else list_events_stored order_events p
  list_events_within order_events sort_events none to p = list_events_stored order_events p
  list_events_within order_events sort_events (some from) none p = list_events_stored order_events p

  unfoldable pub list_events :
      (List EventRow → List EventRow)
      → (List EventRow → List EventRow)
      → ListEventsParams
      → M (List EventRow × ℕ)
  list_events order_events sort_events p =
      list_events_within order_events sort_events p.filter.from p.filter.to p
