-- ===== src/Ipc/Events.antt =====
-- core/internal/ipc/events_write.go and handlers.go: the requests on events.
pub mod Updates
pub mod Exclusion
pub mod Deletion
pub mod Excluded
pub mod Google
pub mod Listed
use dankcalendar.Base.{
  ℤ, ◌+ℤ◌, ◌-ℤ◌, ℕ, String, Bool, true, false, not, ◌&&◌, ◌||◌, List, [], ◌∷◌, ◌++◌, is_empty,
  Option, none, some, ◌==◌, string_eq, if◌then◌else◌,
}
use dankcalendar.Calendar.Types.{
  Calendar, Recurrence, Event, EventStatus, confirmed, zero_time, is_zero,
}
use dankcalendar.Calendar.Json.{JsonMap}
use dankcalendar.Calendar.Convert.{recurrence_from_map, reminders_from_maps}
use dankcalendar.Calendar.Rsvp.{Texts, Account}
use dankcalendar.Conv.Events.{event_upsert_input, or_zero}
use dankcalendar.Repo.Store.{Error, refused, Result, ok, err, EventRow}
use dankcalendar.Repo.Events.{upsert_event, delete_event}
use dankcalendar.Repo.Queries.{EventFilter, ListEventsParams, get_event, get_event_by_uid}
use dankcalendar.Repo.Queries.Expanded.{Env, list_events}
use dankcalendar.Rsvp as Rsvp
use dankcalendar.Ipc.Params.{
  Params, Parsed, Wire, and_then, event_from_params, exdate_value, parse_occurrence_start,
  shift_series_times,
}
use dankcalendar.Ipc.Handler.{
  Provider, Call, event_created, event_updated, event_deleted, Effect, Answer, event_found,
  events_found, was_deleted, replied, Handler, ◌>>=◌, ◌>>◌, respond_with, respond, refuse, run_repo,
  try_repo, publish, call_provider, provider_for_calendar,
}

abbrev pub blank : Event
blank = record {
  id = "";
  calendar_id = "";
  uid = "";
  remote_id = "";
  etag = "";
  summary = "";
  description = "";
  location = "";
  url = "";
  meeting_url = "";
  status = some confirmed;
  start = zero_time;
  end = zero_time;
  all_day = false;
  start_time_zone = "";
  end_time_zone = "";
  recurrence = none;
  recurring_id = "";
  original_start = zero_time;
  organizer = none;
  attendees = [];
  reminders = [];
  categories = none;
  transparency = "";
  visibility = "";
  raw_ics = "";
}

-- `domainEventFromEnt`
unfoldable pub domain_event_from_ent : EventRow → Event
domain_event_from_ent r = record blank {
  id = r.id;
  uid = r.uid;
  remote_id = r.remote_id;
  etag = r.etag;
  summary = r.summary;
  description = r.description;
  location = r.location;
  url = r.url;
  meeting_url = r.meeting_url;
  status = some r.status;
  start = r.start;
  end = r.end;
  all_day = r.all_day;
  start_time_zone = r.start_tz;
  end_time_zone = r.end_tz;
  recurrence = recurrence_from_map r.recurrence;
  recurring_id = r.recurring_id;
  original_start = or_zero r.original_start;
  reminders = reminders_from_maps r.reminders;
}

abbrev or_zone : String → String → String
or_zone zone local = if zone == "" then local else zone

-- The machine's zone, where the event has none.
unfoldable pub with_local_zone : String → Event → Event
with_local_zone tz ev =
    if not ev.all_day && not (tz == "")
    then record ev {
      start_time_zone = or_zone ev.start_time_zone tz;
      end_time_zone = or_zone ev.end_time_zone tz;
    }
    else ev

-- The checks of `handleEventCreate`.
unfoldable pub complete_event : Event → Result Event
complete_event ev =
    if ev.summary == ""
    then err (refused "summary is required")
    else if is_zero ev.start || is_zero ev.end
    then err (refused "start and end are required (RFC3339)")
    else ok ev

abbrev pub has_entries : Option JsonMap → Bool
has_entries none = false
has_entries (some m) = not (is_empty m)

abbrev pub repeats : Option Recurrence → Bool
repeats none = false
repeats (some r) = not (is_empty (r.rrule ++ r.rdate))

abbrev pub plus_exdate : String → Option Recurrence → Option Recurrence
plus_exdate value none = none
plus_exdate value (some r) = some (record r { exdate = r.exdate ++ (value ∷ []) })

abbrev rsvp_provider : Result Provider → Result Rsvp.Provider
rsvp_provider (ok p) = ok (record { respond = p.respond; update_event = p.update_event })
rsvp_provider (err e) = err e

abbrev pub shifted : Event → ℤ → Result ℤ → Result Event
shifted ev master_start (ok start) = ok (shift_series_times ev master_start start)
shifted ev master_start (err e) = err e

module _ (w : Wire) where
  -- The event that `handleEventUpdate` sends.
  unfoldable pub updated_event : EventRow → Params → Result Event
  updated_event row p =
      let raw = w.param_string p "occurrenceStart" in
      and_then (event_from_params w (domain_event_from_ent row) p) λ ev.
        (if not (raw == "") && has_entries row.recurrence
          then shifted ev row.start (parse_occurrence_start w raw row.all_day)
          else ok ev)

  -- The event that `deleteEventOccurrence` sends.
  unfoldable pub without_occurrence : EventRow → ℤ → Result Event
  without_occurrence row start =
      let ev = domain_event_from_ent row in
      if repeats ev.recurrence
      then ok
          (record ev { recurrence = plus_exdate (exdate_value w start ev.all_day) ev.recurrence })
      else err (refused "event is not recurring")

  module _ (build : Account → Result Provider) where
    -- `persistEvent`, and what ends the requests that store an event.
    unfoldable pub persist_event : String → Event → Handler EventRow
    persist_event calendar_id ev = run_repo (upsert_event (event_upsert_input calendar_id ev))

    unfoldable pub publish_events_changed : String → Handler (Unit {0})
    unfolding publish
    publish_events_changed calendar_id = publish "events" "changed" calendar_id

    unfoldable pub create_by : Event → Provider × Calendar → Handler Answer
    create_by ev (provider, c) =
        call_provider "create event" c (event_created ev) (provider.create_event c ev)
        >>= λ created. persist_event c.id created >>= λ stored.
            publish_events_changed c.id >> respond (event_found stored)

    unfoldable pub handle_event_create : Params → Handler Answer
    handle_event_create p =
        let calendar_id = w.param_string p "calendarId" in
        if calendar_id == ""
        then refuse "calendarId is required"
        else respond_with (and_then (event_from_params w blank p) complete_event) >>= λ ev.
            provider_for_calendar build calendar_id >>= create_by (with_local_zone w.local_name ev)

    unfoldable pub update_by : Event → Provider × Calendar → Handler Answer
    update_by ev (provider, c) =
        call_provider "update event" c (event_updated ev) (provider.update_event c ev)
        >>= λ updated. persist_event c.id updated >>= λ stored.
            publish_events_changed c.id >> respond (event_found stored)

    unfoldable pub update_row : Params → EventRow → Handler Answer
    update_row p row =
        if row.calendar_id == ""
        then refuse "event has no calendar"
        else respond_with (updated_event row p) >>= λ ev.
            provider_for_calendar build row.calendar_id >>= update_by ev

    unfoldable pub handle_event_update : Params → Handler Answer
    handle_event_update p =
        let id = w.param_string p "id" in
        if id == "" then refuse "id is required" else run_repo (get_event id) >>= update_row p

    unfoldable pub delete_occurrence_by : String → Event → Provider × Calendar → Handler Answer
    delete_occurrence_by calendar_id ev (provider, c) =
        call_provider "delete occurrence" c (event_updated ev) (provider.update_event c ev)
        >>= λ updated. persist_event c.id updated >>= λ stored.
            publish_events_changed calendar_id >> respond was_deleted

    unfoldable pub delete_event_occurrence : EventRow → ℤ → Handler Answer
    delete_event_occurrence row start = respond_with (without_occurrence row start) >>= λ ev.
        provider_for_calendar build row.calendar_id >>= delete_occurrence_by row.calendar_id ev

    unfoldable pub delete_by : EventRow → Provider × Calendar → Handler Answer
    delete_by row (provider, c) =
        let ev = domain_event_from_ent row in
        call_provider "delete event" c (event_deleted ev) (provider.delete_event c ev) >>= λ u.
        run_repo (delete_event row.id) >>= λ n.
        publish_events_changed row.calendar_id >> respond was_deleted

    unfoldable pub delete_row : Params → EventRow → Handler Answer
    delete_row p row =
        let raw = w.param_string p "occurrenceStart" in
        if row.calendar_id == ""
        then refuse "event has no calendar"
        else if raw == ""
        then provider_for_calendar build row.calendar_id >>= delete_by row
        else respond_with (parse_occurrence_start w raw row.all_day) >>= delete_event_occurrence row

    unfoldable pub handle_event_delete : Params → Handler Answer
    handle_event_delete p =
        let id = w.param_string p "id" in
        if id == "" then refuse "id is required" else run_repo (get_event id) >>= delete_row p

    abbrev rsvp_start : String → Option Parsed → Result ℤ
    rsvp_start raw parsed = if raw == "" then ok zero_time else elim parsed [
      | none ↦ err (refused "occurrenceStart must be RFC3339")
      | some t ↦ ok t.at
    ]

    abbrev event_or_reply : Rsvp.Reply → Result EventRow → Answer
    event_or_reply r (ok row) = event_found row
    event_or_reply r (err e) = replied r.event_id r.response

    unfoldable pub handle_event_rsvp : Texts → Params → Handler Answer
    handle_event_rsvp texts p =
        let id = w.param_string p "id" in
        let response = w.param_string p "response" in
        let raw = w.param_string p "occurrenceStart" in
        if id == ""
        then refuse "id is required"
        else if response == ""
        then refuse "response is required (accept|decline|tentative)"
        else respond_with (rsvp_start raw (w.parse_rfc3339 raw)) >>= λ start.
            run_repo (Rsvp.apply texts (λ a. rsvp_provider (build a)) id response start)
            >>= λ reply.
                publish_events_changed reply.calendar_id
                >> (try_repo (get_event reply.event_id) >>= λ stored.
                    respond (event_or_reply reply stored))
