-- ===== src/Repo/Events.antt =====
-- core/repo/events_mutations.go, and `FindEventByUID` of core/repo/events_queries.go.
pub mod Stored
pub mod Rules
pub mod Keys
pub mod Upserts
pub mod View
pub mod Rows
pub mod Sets
pub mod Members
use dankcalendar.Base.{
  ℤ, ℕ, zero, suc, ◌+◌, String, Bool, true, false, not, ◌&&◌, ◌||◌, List, [], ◌∷◌, Option, none,
  some, ◌==◌, contains, string_eq, if◌then◌else◌,
}
use dankcalendar.Calendar.Types.{EventStatus, confirmed, is_zero}
use dankcalendar.Calendar.Json.{JsonMap}
use dankcalendar.Repo.Store.{
  Error, not_found, constraint, Result, ok, err, EventRow, Tables, M, ◌>>=◌, ◌>>◌, pure, raise,
  attempt, query, update, only,
}

pub record UpsertEventInput : Type 0 where
  pub id : String
  pub calendar_id : String
  pub uid : String
  pub remote_id : String
  pub etag : String
  pub summary : String
  pub description : String
  pub location : String
  pub url : String
  pub meeting_url : String
  -- `none` is the empty status.
  pub status : Option EventStatus
  pub start : ℤ
  pub end : ℤ
  pub all_day : Bool
  pub start_tz : String
  pub end_tz : String
  pub recurrence : Option JsonMap
  pub recurring_id : String
  pub original_start : ℤ
  pub organizer : Option JsonMap
  pub attendees : Option (List JsonMap)
  pub reminders : Option (List JsonMap)
  pub categories : Option (List String)
  pub transparency : String
  pub visibility : String
  pub raw_ics : String

-- `if in.X != nil { q = q.SetX(in.X) }`
abbrev pub or_kept : {A : Type 0} → Option A → Option A → Option A
or_kept none old = old
or_kept (some new) old = some new

abbrev or_status : Option EventStatus → EventStatus → EventStatus
or_status none old = old
or_status (some new) old = new

-- The setters that `UpsertEvent` and `applyEventUpdate` share.
unfoldable pub set_fields : UpsertEventInput → EventRow → EventRow
set_fields input r = record {
  id = r.id;
  calendar_id = r.calendar_id;
  uid = r.uid;
  remote_id = input.remote_id;
  etag = input.etag;
  summary = input.summary;
  description = input.description;
  location = input.location;
  url = input.url;
  meeting_url = input.meeting_url;
  status = or_status input.status r.status;
  start = input.start;
  end = input.end;
  all_day = input.all_day;
  start_tz = input.start_tz;
  end_tz = input.end_tz;
  recurrence = or_kept input.recurrence r.recurrence;
  recurring_id = input.recurring_id;
  original_start =
      if is_zero input.original_start then r.original_start else some input.original_start;
  organizer = or_kept input.organizer r.organizer;
  attendees = or_kept input.attendees r.attendees;
  reminders = or_kept input.reminders r.reminders;
  categories = or_kept input.categories r.categories;
  transparency = input.transparency;
  visibility = input.visibility;
  raw_ics = input.raw_ics;
}

-- A new row before its setters: the schema's defaults.
abbrev pub blank_event : String → String → String → EventRow
blank_event id calendar_id uid = record {
  id = id;
  calendar_id = calendar_id;
  uid = uid;
  remote_id = "";
  etag = "";
  summary = "";
  description = "";
  location = "";
  url = "";
  meeting_url = "";
  status = confirmed;
  start = ℤ.pos 0;
  end = ℤ.pos 0;
  all_day = false;
  start_tz = "";
  end_tz = "";
  recurrence = none;
  recurring_id = "";
  original_start = none;
  organizer = none;
  attendees = none;
  reminders = none;
  categories = none;
  transparency = "";
  visibility = "";
  raw_ics = "";
}

-- The rows that a predicate keeps.
unfoldable pub select {ℓ} : {A : Type ℓ} → (A → Bool) → List A → List A
select p [] = []
select p (x ∷ xs) = let rest = select p xs in if p x then x ∷ rest else rest

abbrev pub in_calendar : String → EventRow → Bool
in_calendar calendar_id r = r.calendar_id == calendar_id

abbrev pub has_key : String → String → EventRow → Bool
has_key calendar_id uid r = r.calendar_id == calendar_id && r.uid == uid

unfoldable pub find_event_by_uid : String → String → M EventRow
find_event_by_uid calendar_id uid = query λ t. only (select (has_key calendar_id uid) t.events)

-- The rows after an update of those with the identifier.
unfoldable pub update_rows : String → (EventRow → EventRow) → List EventRow → List EventRow
update_rows id f [] = []
update_rows id f (r ∷ rs) = (if r.id == id then f r else r) ∷ update_rows id f rs

abbrev pub with_id : String → EventRow → Bool
with_id id r = r.id == id

-- `UpdateOneID(id)…Save`
unfoldable pub apply_event_update : String → UpsertEventInput → M EventRow
apply_event_update id input = update λ t.
    let rows = update_rows id (set_fields input) t.events in
    (only (select (with_id id) rows), record t { events = rows })

-- `Create()…Save`: the row must clash neither with an identifier nor with a (calendar, uid).
unfoldable pub insert_event : EventRow → Tables → Result EventRow × Tables
insert_event r t = elim (select (λ x. x.id == r.id || has_key r.calendar_id r.uid x) t.events) [
  | [] ↦ (ok r, record t { events = r ∷ t.events })
  | _ ∷ _ ↦ (err constraint, t)
]

-- `newID`, where the input brings no identifier.
unfoldable pub choose_id : String → M String
choose_id given w =
    if given == ""
    then (
      ok (w.tables.new_ids w.tables.drawn),
      record w { tables = record w.tables { drawn = suc w.tables.drawn } },
    )
    else (ok given, w)

abbrev pub is_constraint : Error → Bool
is_constraint constraint = true
is_constraint _ = false

-- The fallback of `UpsertEvent` when its insertion fails.
unfoldable pub settle_found : UpsertEventInput → Error → Result EventRow → M EventRow
settle_found input e (ok r) = apply_event_update r.id input
settle_found input e (err _) = raise e

unfoldable pub settle : UpsertEventInput → Result EventRow → M EventRow
settle input (ok r) = pure r
settle input (err e) =
    if is_constraint e
    then attempt (find_event_by_uid input.calendar_id input.uid) >>= settle_found input e
    else raise e

unfoldable pub create_event : UpsertEventInput → M EventRow
create_event input = do
  id ← choose_id input.id
  made ←
      attempt
        (update (insert_event (set_fields input (blank_event id input.calendar_id input.uid))))
  settle input made

abbrev pub is_not_found : Error → Bool
is_not_found not_found = true
is_not_found _ = false

-- The switch on the result of the search.
unfoldable pub after_find : UpsertEventInput → Result EventRow → M EventRow
after_find input (ok r) = apply_event_update r.id input
after_find input (err e) = if is_not_found e then create_event input else raise e

unfoldable pub upsert_event : UpsertEventInput → M EventRow
upsert_event input = do
  found ← attempt (find_event_by_uid input.calendar_id input.uid)
  after_find input found

unfoldable count_rows : List EventRow → ℕ
count_rows [] = 0
count_rows (r ∷ rs) = suc (count_rows rs)

-- `Delete().Where(p).Exec`: the number of rows deleted.
unfoldable pub delete_where : (EventRow → Bool) → M ℕ
unfolding select count_rows
delete_where p = update λ t.
    (ok (count_rows (select p t.events)), record t { events = select (λ r. not (p r)) t.events })

-- `UIDNotIn(uids...)`, asked for only where there are any.
abbrev pub uid_not_in : List String → EventRow → Bool
uid_not_in [] r = true
uid_not_in (u ∷ us) r = not (contains (u ∷ us) r.uid)

unfoldable pub delete_event : String → M ℕ
delete_event id = delete_where (with_id id)

unfoldable pub delete_events_not_in_uids : String → List String → M ℕ
delete_events_not_in_uids calendar_id uids =
    delete_where λ r. in_calendar calendar_id r && uid_not_in uids r

unfoldable pub delete_events_in_series_not_in_uids : String → String → List String → M ℕ
delete_events_in_series_not_in_uids calendar_id recurring_id uids =
    delete_where
      λ r. in_calendar calendar_id r && (r.recurring_id == recurring_id && uid_not_in uids r)

unfoldable pub delete_event_by_uid : String → String → M ℕ
delete_event_by_uid calendar_id uid = delete_where (has_key calendar_id uid)
