-- ===== src/Repo/Calendars.antt =====
-- core/repo/calendars_mutations.go and `GetCalendar`, `FindCalendarByRemoteID` of
-- core/repo/calendars_queries.go, as far as synchronisation uses them.
use dankcalendar.Base.{
  String, Bool, true, false, not, ◌&&◌, ◌||◌, List, [], ◌∷◌, none, ◌==◌, string_eq, if◌then◌else◌,
}
use dankcalendar.Repo.Store.{
  Error, constraint, Result, ok, err, TaskRow, CalendarRow, Tables, M, ◌>>=◌, pure, raise, attempt,
  query, update, only,
}
use dankcalendar.Repo.Events.{select, choose_id, is_constraint, is_not_found, in_calendar}

pub record UpsertCalendarInput : Type 0 where
  pub id : String
  pub account_id : String
  pub remote_id : String
  pub name : String
  pub description : String
  pub color : String
  pub time_zone : String
  pub read_only : Bool
  pub hidden : Bool
  pub sync_token : String
  pub supported_components : List String

unfoldable pub get_calendar : String → M CalendarRow
get_calendar id = query λ t. only (select (λ (c : CalendarRow). c.id == id) t.calendars)

abbrev has_remote_id : String → String → CalendarRow → Bool
has_remote_id account_id remote_id c = c.account_id == account_id && c.remote_id == remote_id

unfoldable pub find_calendar_by_remote_id : String → String → M CalendarRow
find_calendar_by_remote_id account_id remote_id =
    query λ t. only (select (has_remote_id account_id remote_id) t.calendars)

unfoldable pub update_calendars :
    (CalendarRow → Bool) → (CalendarRow → CalendarRow) → List CalendarRow → List CalendarRow
update_calendars p f [] = []
update_calendars p f (c ∷ cs) = (if p c then f c else c) ∷ update_calendars p f cs

abbrev pub or_text : String → String → String
or_text new old = if new == "" then old else new

abbrev or_list : List String → List String → List String
or_list [] old = old
or_list (c ∷ cs) old = c ∷ cs

-- The setters of `calendarUpdate`: neither hidden nor the token, and colour and components only if
-- the provider reported them.
unfoldable pub calendar_update : UpsertCalendarInput → CalendarRow → CalendarRow
calendar_update input c = record c {
  name = input.name;
  description = input.description;
  time_zone = input.time_zone;
  read_only = input.read_only;
  color = or_text input.color c.color;
  supported_components = or_list input.supported_components c.supported_components;
}

abbrev pub with_calendar_id : String → CalendarRow → Bool
with_calendar_id id c = c.id == id

-- `UpdateOneID(id)` with setters.
unfoldable pub update_calendar : String → (CalendarRow → CalendarRow) → M CalendarRow
update_calendar id f = update λ t.
    let rows = update_calendars (with_calendar_id id) f t.calendars in
    (only (select (with_calendar_id id) rows), record t { calendars = rows })

abbrev new_calendar : String → UpsertCalendarInput → CalendarRow
new_calendar id input = record {
  id = id;
  account_id = input.account_id;
  remote_id = input.remote_id;
  name = input.name;
  description = input.description;
  color = input.color;
  time_zone = input.time_zone;
  read_only = input.read_only;
  hidden = input.hidden;
  sync_disabled = false;
  sync_token = input.sync_token;
  supported_components = input.supported_components;
  name_override = none;
  reminder_overrides = none;
}

unfoldable pub insert_calendar : CalendarRow → Tables → Result CalendarRow × Tables
insert_calendar r t =
    elim (select (λ (c : CalendarRow). c.id == r.id || has_remote_id r.account_id r.remote_id c)
      t.calendars) [
        | [] ↦ (ok r, record t { calendars = r ∷ t.calendars })
        | _ ∷ _ ↦ (err constraint, t)
      ]

unfoldable pub settle_found_calendar :
    UpsertCalendarInput → Error → Result CalendarRow → M CalendarRow
settle_found_calendar input e (ok c) = update_calendar c.id (calendar_update input)
settle_found_calendar input e (err _) = raise e

unfoldable pub settle_calendar : UpsertCalendarInput → Result CalendarRow → M CalendarRow
settle_calendar input (ok c) = pure c
settle_calendar input (err e) =
    if is_constraint e
    then attempt (find_calendar_by_remote_id input.account_id input.remote_id)
      >>= settle_found_calendar input e
    else raise e

unfoldable pub after_find_calendar : UpsertCalendarInput → Result CalendarRow → M CalendarRow
after_find_calendar input (ok c) = update_calendar c.id (calendar_update input)
after_find_calendar input (err e) =
    if is_not_found e
    then (do
      id ← choose_id input.id
      made ← attempt (update (insert_calendar (new_calendar id input)))
      settle_calendar input made)
    else raise e

unfoldable pub upsert_calendar : UpsertCalendarInput → M CalendarRow
upsert_calendar input = do
  found ← attempt (find_calendar_by_remote_id input.account_id input.remote_id)
  after_find_calendar input found

-- Only a calendar whose sync is enabled takes the token.
unfoldable pub set_calendar_sync_token : String → String → M (Unit {0})
set_calendar_sync_token id token = update λ t. (
  ok tt,
  record t {
    calendars =
        update_calendars (λ c. with_calendar_id id c && not c.sync_disabled)
          (λ c. record c { sync_token = token }) t.calendars;
  },
)

unfoldable pub set_calendar_color : String → String → M CalendarRow
set_calendar_color id color = update_calendar id (λ c. record c { color = color })

-- The transaction of `SetCalendarSyncDisabled`, as one statement, and its other branch.
unfoldable pub disable_sync : String → Tables → Tables
disable_sync id t = record t {
  events = select (λ r. not (in_calendar id r)) t.events;
  tasks = select (λ (r : TaskRow). not (r.calendar_id == id)) t.tasks;
  calendars =
      update_calendars (with_calendar_id id)
        (λ c. record c { sync_disabled = true; sync_token = "" }) t.calendars;
}

unfoldable enable_sync : String → Tables → Tables
enable_sync id t = record t {
  calendars =
      update_calendars (with_calendar_id id)
        (λ c. record c { sync_disabled = false; sync_token = "" }) t.calendars;
}
