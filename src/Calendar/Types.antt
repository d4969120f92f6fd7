-- ===== src/Calendar/Types.antt =====
-- core/internal/calendar/types.go. An instant is a number of nanoseconds since Go's zero time, so
-- `IsZero` tests for 0, and zones do not show (`UTC()` changes no instant). A nil pointer is `none`;
-- so is a nil slice where the code tests a slice for nil.
use dankcalendar.Base.{
  ℤ, pos, String, Bool, true, List, [], ◌∷◌, Option, ◌==◌, contains, string_eq, int_eq,
}

abbrev pub zero_time : ℤ
zero_time = pos 0

unfoldable pub is_zero : ℤ → Bool
unfolding int_eq
is_zero t = t == zero_time

pub data AccountKind : Type 0 where
  local google caldav microsoft ical evolution : AccountKind

pub record Calendar : Type 0 where
  pub id : String
  pub account_id : String
  pub remote_id : String
  pub name : String
  pub description : String
  pub color : String
  pub time_zone : String
  pub read_only : Bool
  pub hidden : Bool
  pub sync_token : String
  pub supported_components : List String

abbrev component_vevent : String
component_vevent = "VEVENT"

abbrev pub component_vtodo : String
component_vtodo = "VTODO"

unfoldable pub holds_tasks : List String → Bool
holds_tasks components = contains components component_vtodo

unfoldable pub holds_events : List String → Bool
holds_events [] = true
holds_events (c ∷ cs) = contains (c ∷ cs) component_vevent

pub record Attendee : Type 0 where
  pub email : String
  pub display_name : String
  pub role : String
  pub status : String
  pub optional : Bool
  pub organizer : Bool

abbrev reminder_related_end : String
reminder_related_end = "end"

pub record Reminder : Type 0 where
  pub method : String
  pub minutes : ℤ
  pub related : String

unfoldable pub related_to_end : Reminder → Bool
related_to_end r = r.related == reminder_related_end

pub record Recurrence : Type 0 where
  pub rrule : List String
  pub rdate : List String
  pub exdate : List String

pub data EventStatus : Type 0 where
  confirmed tentative cancelled : EventStatus

pub record Event : Type 0 where
  pub id : String
  pub calendar_id : String
  pub uid : String
  pub remote_id : String
  pub etag : String
  pub summary : String
  pub description : String
  pub location : String
  pub url : String
  pub meeting_url : String
  -- `none` is the empty status.
  pub status : Option EventStatus
  pub start : ℤ
  pub end : ℤ
  pub all_day : Bool
  pub start_time_zone : String
  pub end_time_zone : String
  pub recurrence : Option Recurrence
  pub recurring_id : String
  pub original_start : ℤ
  pub organizer : Option Attendee
  pub attendees : List Attendee
  pub reminders : List Reminder
  pub categories : Option (List String)
  pub transparency : String
  pub visibility : String
  pub raw_ics : String

pub data TaskStatus : Type 0 where
  needs_action in_process completed cancelled : TaskStatus

pub record Task : Type 0 where
  pub id : String
  pub calendar_id : String
  pub uid : String
  pub remote_id : String
  pub etag : String
  pub summary : String
  pub description : String
  pub location : String
  pub status : Option TaskStatus
  pub priority : ℤ
  pub percent_complete : ℤ
  pub due : ℤ
  pub start : ℤ
  pub completed : ℤ
  pub all_day : Bool
  pub due_time_zone : String
  pub start_time_zone : String
  pub parent_uid : String
  pub recurrence : Option Recurrence
  pub categories : Option (List String)
  pub reminders : List Reminder
  pub raw_ics : String

pub record SyncCursor : Type 0 where
  pub calendar_id : String
  pub token : String

-- `other` is a type that is neither "upsert" nor "delete".
pub data ChangeType : Type 0 where
  upsert delete other : ChangeType

pub record EventChange : Type 0 where
  pub type : ChangeType
  pub event : Option Event
  pub remote_id : String

pub record TaskChange : Type 0 where
  pub type : ChangeType
  pub task : Option Task
  pub remote_id : String

pub record SyncResult : Type 0 where
  pub cursor : SyncCursor
  pub changes : List EventChange
  pub task_changes : List TaskChange
  pub more : Bool
  pub full_snapshot : Bool
  pub series_touched : List String
  pub retry_after : ℤ
  pub color : String
