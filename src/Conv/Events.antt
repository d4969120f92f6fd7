-- ===== src/Conv/Events.antt =====
-- core/internal/eventconv/eventconv.go
pub mod RoundTrip
use dankcalendar.Base.{ℤ, pos, String, List, Option, none, some}
use dankcalendar.Calendar.Types.{Event, EventStatus, confirmed, tentative, cancelled, zero_time}
use dankcalendar.Calendar.Json.{JsonMap}
use dankcalendar.Calendar.Types.{Attendee}
use dankcalendar.Calendar.Convert.{
  attendee_to_map, attendees_to_maps, attendees_from_maps, organizer_from_map, reminders_to_maps,
  reminders_from_maps, recurrence_to_map, recurrence_from_map,
}
use dankcalendar.Repo.Store.{EventRow}
use dankcalendar.Repo.Events.{UpsertEventInput}

-- `EntStatus`
unfoldable pub event_status : Option EventStatus → EventStatus
event_status (some tentative) = tentative
event_status (some cancelled) = cancelled
event_status (some confirmed) = confirmed
event_status none = confirmed

abbrev pub organizer_to_map : Option Attendee → Option JsonMap
organizer_to_map none = none
organizer_to_map (some a) = some (attendee_to_map a)

-- `UpsertInput`
unfoldable pub event_upsert_input : String → Event → UpsertEventInput
event_upsert_input calendar_id ev = record {
  id = "";
  calendar_id = calendar_id;
  uid = ev.uid;
  remote_id = ev.remote_id;
  etag = ev.etag;
  summary = ev.summary;
  description = ev.description;
  location = ev.location;
  url = ev.url;
  meeting_url = ev.meeting_url;
  status = some (event_status ev.status);
  start = ev.start;
  end = ev.end;
  all_day = ev.all_day;
  start_tz = ev.start_time_zone;
  end_tz = ev.end_time_zone;
  recurrence = recurrence_to_map ev.recurrence;
  recurring_id = ev.recurring_id;
  original_start = ev.original_start;
  organizer = organizer_to_map ev.organizer;
  attendees = attendees_to_maps ev.attendees;
  reminders = reminders_to_maps ev.reminders;
  categories = ev.categories;
  transparency = ev.transparency;
  visibility = ev.visibility;
  raw_ics = ev.raw_ics;
}

abbrev pub or_zero : Option ℤ → ℤ
or_zero none = zero_time
or_zero (some t) = t

-- `FromEnt`
unfoldable pub event_from_row : EventRow → Event
event_from_row r = record {
  id = r.id;
  calendar_id = "";
  uid = r.uid;
  remote_id = r.remote_id;
  etag = r.etag;
  summary = r.summary;
  description = r.description;
  location = r.location;
  url = r.url;
  meeting_url = r.meeting_url;
  status = some r.status;
  start = r.start;
  end = r.end;
  all_day = r.all_day;
  start_time_zone = r.start_tz;
  end_time_zone = r.end_tz;
  recurrence = recurrence_from_map r.recurrence;
  recurring_id = r.recurring_id;
  original_start = or_zero r.original_start;
  organizer = organizer_from_map r.organizer;
  attendees = attendees_from_maps r.attendees;
  reminders = reminders_from_maps r.reminders;
  categories = r.categories;
  transparency = r.transparency;
  visibility = r.visibility;
  raw_ics = r.raw_ics;
}
