-- ===== src/Repo/Queries.antt =====
-- core/repo/events_queries.go and core/repo/tasks_queries.go: the filters, the pages, and the listing of
-- tasks.
pub mod Pages
pub mod Expanded
use Prim.Native.String.{◌++◌}
use dankcalendar.Base.{
  ℤ, pos, pos_part, ◌+ℤ◌, ◌-ℤ◌, ltb_ℤ, leb_ℤ, ℕ, String, Bool, true, false, not, ◌&&◌, ◌||◌, List,
  [], ◌∷◌, length, is_empty, take, drop, Option, none, some, ◌==◌, Eq, contains, string_eq, int_eq,
  if◌then◌else◌,
}
use dankcalendar.Calendar.Types.{EventStatus, TaskStatus}
use dankcalendar.Calendar.Json.{JsonMap, get}
use dankcalendar.Calendar.Convert.{string_slice}
use dankcalendar.Repo.Store.{
  Result, ok, err, not_found, EventRow, TaskRow, CalendarRow, Tables, M, ◌>>=◌, pure, query, only,
}
use dankcalendar.Repo.Events.{select}

pub record EventFilter : Type 0 where
  pub calendar_ids : List String
  pub from : Option ℤ
  pub to : Option ℤ
  pub query : String
  pub include_recurring : Bool

pub record ListEventsParams : Type 0 where
  pub filter : EventFilter
  pub limit : ℤ
  pub offset : ℤ

pub record TaskFilter : Type 0 where
  pub calendar_ids : List String
  pub include_completed : Bool
  pub query : String

pub record ListTasksParams : Type 0 where
  pub filter : TaskFilter
  pub limit : ℤ
  pub offset : ℤ

unfoldable pub get_event : String → M EventRow
get_event id = query λ t. only (select (λ (r : EventRow). r.id == id) t.events)

unfoldable pub get_task : String → M TaskRow
get_task id = query λ t. only (select (λ (r : TaskRow). r.id == id) t.tasks)

abbrev first_row : List EventRow → Result EventRow
first_row [] = err not_found
first_row (r ∷ rs) = ok r

-- `order_events` is SQL's ORDER BY start.
unfoldable pub get_event_by_uid : (List EventRow → List EventRow) → String → String → M EventRow
get_event_by_uid order_events uid calendar_id = query λ t. first_row (
    order_events
      (select (λ r. r.uid == uid && (calendar_id == "" || r.calendar_id == calendar_id)) t.events))

-- `WithCalendar`: the edge, `none` where it is nil.
unfoldable pub edge : List CalendarRow → String → Option CalendarRow
edge [] id = none
edge (c ∷ cs) id = let later = edge cs id in if c.id == id then some c else later

abbrev pub edge_id : Option CalendarRow → String
edge_id none = ""
edge_id (some c) = c.id

abbrev pub edge_zone : Option CalendarRow → String
edge_zone none = ""
edge_zone (some c) = c.time_zone

-- `HasCalendarWith(calendar.IDIn(ids...))`, for a list that is not empty.
abbrev has_calendar_in : List String → Option CalendarRow → Bool
has_calendar_in ids none = false
has_calendar_in ids (some c) = contains ids c.id

abbrev at_least : Option ℤ → ℤ → Bool
at_least none t = true
at_least (some from) t = leb_ℤ from t

abbrev at_most : Option ℤ → ℤ → Bool
at_most none t = true
at_most (some to) t = leb_ℤ t to

abbrev pub is_nil : {A : Type 0} → Option A → Bool
is_nil none = true
is_nil (some a) = false

abbrev pub is_cancelled_row : EventStatus → Bool
is_cancelled_row EventStatus.cancelled = true
is_cancelled_row EventStatus.confirmed = false
is_cancelled_row EventStatus.tentative = false

abbrev is_closed_task : TaskStatus → Bool
is_closed_task TaskStatus.needs_action = false
is_closed_task TaskStatus.in_process = false
is_closed_task TaskStatus.completed = true
is_closed_task TaskStatus.cancelled = true

-- SQL's LIMIT and OFFSET, each where it is positive.
unfoldable pub sql_page {ℓ} : {A : Type ℓ} → ℤ → ℤ → List A → List A
sql_page limit offset rows =
    let rest = if ltb_ℤ (pos 0) offset then drop (pos_part offset) rows else rows in
    if ltb_ℤ (pos 0) limit then take (pos_part limit) rest else rest

-- The cut of the listing in memory.
unfoldable pub limited {ℓ} : {A : Type ℓ} → ℤ → List A → List A
limited limit rows =
    if ltb_ℤ (pos 0) limit && ltb_ℤ limit (pos (length rows))
    then take (pos_part limit) rows
    else rows

unfoldable pub page {ℓ} : {A : Type ℓ} → ℤ → ℤ → List A → List A
page limit offset rows =
    if ltb_ℤ (pos 0) offset
    then (if leb_ℤ (pos (length rows)) offset
        then []
        else limited limit (drop (pos_part offset) rows))
    else limited limit rows

unfoldable pub recurrence_strings : Option JsonMap → String → List String
recurrence_strings none key = []
recurrence_strings (some rec) key = string_slice (get rec key)

unfoldable pub occurrence_key : (ℤ → String) → String → String → ℤ → String
occurrence_key rfc3339 calendar_id series_uid start =
    calendar_id ++ "\0" ++ series_uid ++ "\0" ++ rfc3339 start

-- `contains_fold` is SQL's match of `ContainsFold`.
module _ (contains_fold : String → String → Bool) where
  unfoldable pub matches_text : String → String → String → String → Bool
  matches_text q summary description location =
      q == "" || contains_fold summary q || contains_fold description q || contains_fold location q

  -- `scopeEventPredicates`
  unfoldable pub in_scope : EventFilter → List CalendarRow → EventRow → Bool
  in_scope f cs r =
      (is_empty f.calendar_ids || has_calendar_in f.calendar_ids (edge cs r.calendar_id))
      && matches_text f.query r.summary r.description r.location

  -- `baseEventPredicates`
  unfoldable pub in_base : EventFilter → List CalendarRow → EventRow → Bool
  in_base f cs r = in_scope f cs r && (at_least f.from r.end && at_most f.to r.start)

  -- `taskPredicates`
  unfoldable pub task_in_scope : TaskFilter → List CalendarRow → TaskRow → Bool
  task_in_scope f cs r =
      (is_empty f.calendar_ids || has_calendar_in f.calendar_ids (edge cs r.calendar_id))
      && ((f.include_completed || not (is_closed_task r.status))
          && matches_text f.query r.summary r.description r.location)

  -- `order_tasks` is SQL's ORDER BY due, summary.
  unfoldable pub list_tasks : (List TaskRow → List TaskRow) → ListTasksParams → M (List TaskRow × ℕ)
  list_tasks order_tasks p =
      query (λ t. ok (length (select (task_in_scope p.filter t.calendars) t.tasks))) >>= λ total.
      query (λ t. ok (
        sql_page p.limit p.offset
          (order_tasks (select (task_in_scope p.filter t.calendars) t.tasks))))
      >>= λ rows. pure (rows, total)
