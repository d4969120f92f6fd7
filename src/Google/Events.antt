-- ===== src/Google/Events.antt =====
-- core/internal/providers/google/provider.go: Google's events as events of the calendar.
pub mod Pages
pub mod Listing
pub mod Lines
pub mod Writes
use dankcalendar.Base.{
  ℤ, pos, ◌*◌, ◌+ℤ◌, ltb_ℤ, ℕ, String, Bool, true, false, not, ◌&&◌, ◌||◌, List, [], ◌∷◌, ◌++◌, map,
  Option, none, some, ◌==◌, string_eq, nat_eq, if◌then◌else◌,
}
use dankcalendar.Calendar.Types.{
  Attendee, Reminder, Recurrence, Event, EventStatus, confirmed, tentative, cancelled, Calendar,
  SyncCursor, ChangeType, upsert, delete, EventChange, SyncResult, zero_time,
}
use dankcalendar.Google.Quota.Errors.{Err, wrapped, ApiError, as_api}

-- `calendar.EventDateTime`
pub record GoogleTime : Type 0 where
  pub date : String
  pub date_time : String
  pub time_zone : String

pub record EntryPoint : Type 0 where
  pub entry_point_type : String
  pub uri : String

pub record GoogleAttendee : Type 0 where
  pub email : String
  pub display_name : String
  pub response_status : String
  pub optional : Bool
  pub organizer : Bool

-- `calendar.Event` of Google's client: what the code reads of it.
pub record GoogleEvent : Type 0 where
  pub id : String
  pub etag : String
  pub status : String
  pub summary : String
  pub description : String
  pub location : String
  pub html_link : String
  pub hangout_link : String
  -- None where there is no conference.
  pub entry_points : List EntryPoint
  pub recurrence : List String
  pub recurring_event_id : String
  pub attendees : List GoogleAttendee
  pub transparency : String
  pub visibility : String
  pub start : Option GoogleTime
  pub end : Option GoogleTime
  pub original_start : Option GoogleTime
  -- The email and the name.
  pub organizer : Option (String × String)
  -- The methods and the minutes of the overrides.
  pub reminders : List (String × ℤ)

abbrev pub day : ℤ
day = pos (24 * 60 * 60 * 1000000000)

-- What the conversion calls of Go's libraries; a text that does not parse gives the zero time.
-- `meeting_url_in_text` is `MeetingURLInText`, a search by a regular expression, and
-- `normalize_date_values` rewrites the times of a zone to UTC.
pub record Env : Type 0 where
  pub parse_date : String → ℤ
  pub parse_rfc3339 : String → ℤ
  -- `strings.Cut`
  pub cut : String → String → Option (String × String)
  pub to_upper : String → String
  pub meeting_url_in_text : String → String → String
  pub normalize_date_values : String → String → String

unfoldable pub from_google_status : String → EventStatus
from_google_status s =
    if s == "tentative" then tentative else if s == "cancelled" then cancelled else confirmed

-- The first entry point with a video.
unfoldable pub video_uri : List EntryPoint → Option String
video_uri [] = none
video_uri (ep ∷ rest) =
    let later = video_uri rest in
    if ep.entry_point_type == "video" && not (ep.uri == "") then some ep.uri else later

unfoldable pub from_google_attendees : List GoogleAttendee → List Attendee
from_google_attendees = map λ a. record {
  email = a.email;
  display_name = a.display_name;
  role = "";
  status = a.response_status;
  optional = a.optional;
  organizer = a.organizer;
}

unfoldable pub to_google_attendees : List Attendee → List GoogleAttendee
to_google_attendees = map λ a. record {
  email = a.email;
  display_name = a.display_name;
  response_status = a.status;
  optional = a.optional;
  organizer = a.organizer;
}

abbrev organizer_of : Option (String × String) → Option Attendee
organizer_of none = none
organizer_of (some (email, name)) = some (record {
  email = email;
  display_name = name;
  role = "";
  status = "";
  optional = false;
  organizer = true;
})

-- The instant, whether it is a date, and the zone.
pub record Moment : Type 0 where
  pub at : ℤ
  pub is_date : Bool
  pub time_zone : String

-- An end of an all-day event that is not after its start is moved to the next day.
unfoldable pub all_day_end : Bool → ℤ → ℤ → ℤ
all_day_end all_day start end = if all_day && not (ltb_ℤ start end) then start +ℤ day else end

module _ (env : Env) where
  abbrev meeting_url_or : GoogleEvent → Option String → String
  meeting_url_or item (some uri) = uri
  meeting_url_or item none =
      if item.hangout_link == ""
      then env.meeting_url_in_text item.description item.location
      else item.hangout_link

  unfoldable pub from_google_meeting_url : GoogleEvent → String
  from_google_meeting_url item = meeting_url_or item (video_uri item.entry_points)

  unfoldable pub from_google_time : Option GoogleTime → Moment
  from_google_time none = record { at = zero_time; is_date = false; time_zone = "" }
  from_google_time (some t) =
      if t.date == ""
      then record { at = env.parse_rfc3339 t.date_time; is_date = false; time_zone = t.time_zone }
      else record { at = env.parse_date t.date; is_date = true; time_zone = t.time_zone }

  -- The name of a property before its parameters, and these.
  abbrev property_of : String → Option (String × String) → String × String
  property_of name none = (name, "")
  property_of name (some (prop, params)) = (prop, params)

  unfoldable pub add_value : String → String → String → Recurrence → Recurrence
  add_value prop params value rec =
      if prop == "RRULE"
      then record rec { rrule = value ∷ rec.rrule }
      else if prop == "RDATE"
      then record rec { rdate = env.normalize_date_values params value ∷ rec.rdate }
      else if prop == "EXDATE"
      then record rec { exdate = env.normalize_date_values params value ∷ rec.exdate }
      else rec

  abbrev pub add_cut : Option (String × String) → Recurrence → Recurrence
  add_cut none rec = rec
  add_cut (some (name, value)) rec =
      let (prop, params) = property_of name (env.cut name ";") in
      add_value (env.to_upper prop) params value rec

  -- The loop over the lines.
  unfoldable pub lines_of : List String → Recurrence
  lines_of [] = record { rrule = []; rdate = []; exdate = [] }
  lines_of (line ∷ lines) = add_cut (env.cut line ":") (lines_of lines)

  abbrev or_nil : Recurrence → Option Recurrence
  or_nil r = elim (r.rrule ++ (r.rdate ++ r.exdate)) [ [] ↦ none | _ ∷ _ ↦ some r ]

  unfoldable pub from_google_recurrence : List String → Option Recurrence
  from_google_recurrence [] = none
  from_google_recurrence (line ∷ lines) = or_nil (lines_of (line ∷ lines))

  -- `fromGoogleEvent`, less the times of creation and change.
  unfoldable pub from_google_event : Calendar → GoogleEvent → Event
  from_google_event c item =
      let start = from_google_time item.start in
      let end = from_google_time item.end in
      record {
        id = "";
        calendar_id = c.id;
        uid = item.id;
        remote_id = item.id;
        etag = item.etag;
        summary = item.summary;
        description = item.description;
        location = item.location;
        url = item.html_link;
        meeting_url = from_google_meeting_url item;
        status = some (from_google_status item.status);
        start = start.at;
        end = all_day_end start.is_date start.at end.at;
        all_day = start.is_date;
        start_time_zone = start.time_zone;
        end_time_zone = end.time_zone;
        recurrence = from_google_recurrence item.recurrence;
        recurring_id = item.recurring_event_id;
        original_start = (from_google_time item.original_start).at;
        organizer = organizer_of item.organizer;
        attendees = from_google_attendees item.attendees;
        reminders = map (λ r. record { method = r.0; minutes = r.1; related = "" }) item.reminders;
        categories = none;
        transparency = item.transparency;
        visibility = item.visibility;
        raw_ics = "";
      }
