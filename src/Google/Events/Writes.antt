-- ===== src/Google/Events/Writes.antt =====
-- core/internal/providers/google/provider.go: the events of the calendar as events that are sent to Google.
pub mod Sent
use Prim.Native.String.{◌++◌}
use dankcalendar.Base.{
  ℤ, ◌+ℤ◌, String, Bool, true, false, not, ◌&&◌, ◌||◌, List, [], ◌∷◌, map, nat_eq, Option, none,
  some, ◌==◌, string_eq, if◌then◌else◌,
}
use dankcalendar.Calendar.Types.{
  Calendar, Recurrence, Event, EventStatus, confirmed, tentative, cancelled, is_zero,
}
use dankcalendar.Repo.Store.{Error, refused, wrapped, Result, ok, err}
use dankcalendar.Calendar.Rsvp.{Texts, response_accepted, response_declined, response_tentative}
use dankcalendar.Google.Quota.Errors.{Err, ApiError, is_nil, as_api}
use dankcalendar.Google.Events.{
  GoogleAttendee, GoogleTime, GoogleEvent, day, Env, to_google_attendees, from_google_event,
}
use dankcalendar.Google.Events.Lines.{to_google_recurrence}

-- What the conversion calls of the package time: `Format("2006-01-02")` of the date of an all-day event,
-- in UTC, and `In(loc).Format(time.RFC3339)` in the zone that is named, or the time's own.
pub record Formats : Type 0 where
  pub date : ℤ → String
  pub rfc3339 : String → ℤ → String

abbrev pub status_text : Option EventStatus → String
status_text none = ""
status_text (some confirmed) = "confirmed"
status_text (some tentative) = "tentative"
status_text (some cancelled) = "cancelled"

abbrev pub lines_sent : Option Recurrence → List String
lines_sent none = []
lines_sent (some r) = to_google_recurrence r

-- A recurring event has a zone.
abbrev pub zone_sent : Option Recurrence → String → String
zone_sent none zone = zone
zone_sent (some r) zone = if zone == "" then "UTC" else zone

abbrev pub read_back : Env → Calendar → String → Result GoogleEvent → Result Event
read_back env c text (ok item) = ok (from_google_event env c item)
read_back env c text (err e) = err (wrapped text e)

module _ (formats : Formats) where
  unfoldable pub to_google_date : ℤ → GoogleTime
  to_google_date t = record { date = formats.date t; date_time = ""; time_zone = "" }

  unfoldable pub to_google_date_time : ℤ → String → GoogleTime
  to_google_date_time t zone = record {
    date = "";
    date_time = formats.rfc3339 zone t;
    time_zone = zone;
  }

  -- The end of an all-day event is exclusive.
  unfoldable pub exclusive_end : ℤ → ℤ → ℤ
  exclusive_end start end =
      if is_zero end || (formats.date end == formats.date start) then start +ℤ day else end

  abbrev pub start_sent : Event → GoogleTime
  start_sent ev =
      if ev.all_day
      then to_google_date ev.start
      else record (to_google_date_time ev.start ev.start_time_zone) {
        time_zone = zone_sent ev.recurrence ev.start_time_zone;
      }

  abbrev pub end_sent : Event → GoogleTime
  end_sent ev =
      if ev.all_day
      then to_google_date (exclusive_end ev.start ev.end)
      else record (to_google_date_time ev.end ev.end_time_zone) {
        time_zone = zone_sent ev.recurrence ev.end_time_zone;
      }

  unfoldable pub to_google_event : Event → GoogleEvent
  to_google_event ev = record {
    id = "";
    etag = "";
    status = status_text ev.status;
    summary = ev.summary;
    description = ev.description;
    location = ev.location;
    html_link = "";
    hangout_link = "";
    entry_points = [];
    recurrence = lines_sent ev.recurrence;
    recurring_event_id = "";
    attendees = to_google_attendees ev.attendees;
    transparency = ev.transparency;
    visibility = "";
    start = some (start_sent ev);
    end = some (end_sent ev);
    original_start = none;
    organizer = none;
    reminders = map (λ r. (r.method, r.minutes)) ev.reminders;
  }

  -- `insert` and `update` are the requests of the calendar's and of the event's remote identifier.
  module _ (env : Env) where
    unfoldable create_google_event :
        (String → GoogleEvent → Result GoogleEvent) → Calendar → Event → Result Event
    create_google_event insert c ev =
        read_back env c "create google event" (insert c.remote_id (to_google_event ev))

    unfoldable pub update_google_event :
        (String → String → GoogleEvent → Result GoogleEvent) → Calendar → Event → Result Event
    update_google_event update c ev =
        if ev.remote_id == ""
        then err (refused "update google event: missing remote id")
        else read_back env c "update google event"
            (update c.remote_id ev.remote_id (to_google_event ev))

abbrev deleted_or_gone : Option ApiError → Err → Result (Unit {0})
deleted_or_gone none e = err (refused "delete google event")
deleted_or_gone (some a) e =
    if a.code == 404 || a.code == 410 then ok tt else err (refused "delete google event")

-- An event that Google no longer has counts as deleted.
unfoldable delete_google_event : (String → String → Err) → Calendar → Event → Result (Unit {0})
delete_google_event delete c ev =
    let e = delete c.remote_id ev.remote_id in
    if ev.remote_id == ""
    then err (refused "delete google event: missing remote id")
    else if is_nil e
    then ok tt
    else deleted_or_gone (as_api e) e

unfoldable to_google_response : String → String
to_google_response canonical =
    if canonical == response_accepted
    then "accepted"
    else if canonical == response_declined
    then "declined"
    else if canonical == response_tentative
    then "tentative"
    else "needsAction"

abbrev is_account : Texts → String → GoogleAttendee → Bool
is_account texts self a = texts.equal_fold a.email self

-- The loop over the attendees: whether the user is among them, and the list with the answer.
unfoldable with_answer : Texts → String → String → List GoogleAttendee → Bool × List GoogleAttendee
with_answer texts self response [] = (false, [])
with_answer texts self response (a ∷ rest) =
    let (found, others) = with_answer texts self response rest in
    if is_account texts self a
    then (true, record a { response_status = to_google_response response } ∷ others)
    else (found, a ∷ others)

-- `date` and `time` are the formats of the date and of the UTC time of an occurrence.
unfoldable google_instance_id : (ℤ → String) → (ℤ → String) → String → ℤ → Bool → String
google_instance_id date time master start all_day =
    master ++ ("_" ++ (if all_day then date start else time start))

unfoldable answered_id : (ℤ → String) → (ℤ → String) → Event → String
answered_id date time ev =
    if not (is_zero ev.original_start) && not (ev.recurring_id == "")
    then google_instance_id date time ev.remote_id ev.original_start ev.all_day
    else ev.remote_id

module _ (env : Env) (texts : Texts) (date time : ℤ → String) where
  -- `patch` is the request that sends the attendees alone.
  unfoldable respond_to_event :
      (String → String → List GoogleAttendee → Result GoogleEvent)
      → String
      → Calendar
      → Event
      → String
      → Result Event
  respond_to_event patch account c ev response =
      let (found, attendees) =
        with_answer texts (texts.to_lower account) response (to_google_attendees ev.attendees) in
      if ev.remote_id == ""
      then err (refused "respond google event: missing remote id")
      else if not found
      then err (refused "respond google event: not an attendee")
      else read_back env c "respond google event"
          (patch c.remote_id (answered_id date time ev) attendees)
