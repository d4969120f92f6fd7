-- ===== src/Tests/Data.antt =====
-- The JSON columns, the events and the tables of core/internal/calendar and core/repo on small inputs.
use mathlib.Core.Option
use dankcalendar.Base.{
  pos, String, true, false, List, [], ◌∷◌, map, none, some, ◌≡◌, refl, arith, string_eq,
}
use dankcalendar.Calendar.Types.{Attendee, Reminder, Recurrence, Event}
use dankcalendar.Calendar.Json.{JsonMap, get}
use dankcalendar.Calendar.Convert.{
  attendees_from_maps, attendees_to_maps, reminders_from_maps, reminders_to_maps,
  recurrence_from_map, recurrence_to_map, recurrence_or_none,
}
use dankcalendar.Calendar.Convert.RoundTrip.{decoded, IsJsonColumn, columns_round_trip}
use dankcalendar.Repo.Store.{CalendarRow, Tables, World, quiet, broken}
use dankcalendar.Repo.Post.{Post, Any}
use dankcalendar.Repo.Events.View.{Keys, Holds, stored, with_key, without_key, only_uids}
use dankcalendar.Repo.Events.Sets.{mutations_as_sets}
use dankcalendar.Repo.Keeps.{Sound}
use dankcalendar.Repo.Events.{
  select, set_fields, blank_event, upsert_event, delete_event, delete_event_by_uid,
  delete_events_not_in_uids, delete_events_in_series_not_in_uids,
}
use dankcalendar.Repo.Events.Keys.{UniqueKeys, mutations_keep_keys}
use dankcalendar.Conv.Events.{event_upsert_input, event_from_row}
use dankcalendar.Conv.Events.RoundTrip.{reread, normal, event_round_trip}

-- Decoding one value after the other.
abbrev pub decode_all : JsonMap → JsonMap
decode_all [] = []
decode_all ((k, v) ∷ m) = (k, decoded v) ∷ decode_all m

pub get-decode_all :
    (m : JsonMap) (k : String) → get (decode_all m) k ≡ Option.map decoded (get m k)
unfolding get
get-decode_all [] k = refl
get-decode_all ((j, v) ∷ m) k = ground (arith, get-decode_all m k)

abbrev pub law : IsJsonColumn decode_all
law = record { get-column = get-decode_all }

abbrev guest : Attendee
guest = record {
  email = "a@example.org";
  display_name = "A";
  role = "req";
  status = "accepted";
  optional = true;
  organizer = false;
}

abbrev alarm : Reminder
alarm = record { method = "popup"; minutes = pos 10; related = "" }

abbrev pub weekly : Recurrence
weekly = record { rrule = "FREQ=WEEKLY" ∷ []; rdate = []; exdate = "20260101" ∷ [] }

columns_round_trip_example :
    (attendees_from_maps (Option.map (map decode_all) (attendees_to_maps (guest ∷ [])))
      ≡ guest ∷ [])
    × (reminders_from_maps (Option.map (map decode_all) (reminders_to_maps (alarm ∷ [])))
        ≡ alarm ∷ [])
    × (recurrence_from_map (Option.map decode_all (recurrence_to_map (some weekly)))
        ≡ recurrence_or_none weekly)
columns_round_trip_example = columns_round_trip decode_all law (guest ∷ []) (alarm ∷ []) weekly

abbrev pub meeting : Event
meeting = record {
  id = "";
  calendar_id = "";
  uid = "u1";
  remote_id = "r1";
  etag = "e";
  summary = "Meeting";
  description = "";
  location = "Room 1";
  url = "";
  meeting_url = "";
  status = none;
  start = pos 1000;
  end = pos 2000;
  all_day = false;
  start_time_zone = "UTC";
  end_time_zone = "UTC";
  recurrence = some weekly;
  recurring_id = "";
  original_start = pos 0;
  organizer = some guest;
  attendees = guest ∷ [];
  reminders = alarm ∷ [];
  categories = none;
  transparency = "";
  visibility = "";
  raw_ics = "";
}

event_round_trip_example :
    event_from_row (
      reread decode_all
        (set_fields (event_upsert_input "c1" meeting) (blank_event "id1" "c1" "u1")))
    ≡ normal "id1" meeting
event_round_trip_example = event_round_trip decode_all law "id1" "c1" meeting

abbrev pub tables : Tables
tables = record {
  events = set_fields (event_upsert_input "c1" meeting) (blank_event "id1" "c1" "u1") ∷ [];
  tasks = [];
  calendars = [];
  accounts = [];
  secrets = [];
  new_ids = λ n. "new";
  drawn = 0;
}

abbrev world : World
world = record { tables = tables; incidents = quiet ∷ broken "disk full" ∷ [] }

mutations_keep_keys_example :
    Sound UniqueKeys (upsert_event (event_upsert_input "c1" meeting) world).1
    × Sound UniqueKeys (delete_event "id1" world).1
    × Sound UniqueKeys (delete_event_by_uid "c1" "u1" world).1
    × Sound UniqueKeys (delete_events_not_in_uids "c1" ("u2" ∷ []) world).1
    × Sound UniqueKeys (delete_events_in_series_not_in_uids "c1" "s" ("u2" ∷ []) world).1
unfolding select
mutations_keep_keys_example =
    mutations_keep_keys (event_upsert_input "c1" meeting) "id1" "c1" "u1" "s" ("u2" ∷ []) world
      (record { holds = (refl, tt); safe = (tt, (tt, tt)) })

abbrev AnyCalendars : List CalendarRow → Type 0
AnyCalendars cs = Unit

abbrev stored_keys : Keys
stored_keys c u = stored c u tables.events

abbrev calm_world : World
calm_world = record { tables = tables; incidents = quiet ∷ [] }

mutations_as_sets_example :
    Post
      (λ r. Holds AnyCalendars (with_key "c1" "u1" stored_keys))
      Any
      (upsert_event (event_upsert_input "c1" meeting) calm_world)
    × Post
        (λ n. Holds AnyCalendars (without_key "c1" "u1" stored_keys))
        Any
        (delete_event_by_uid "c1" "u1" calm_world)
    × Post
        (λ n. Holds AnyCalendars (only_uids "c1" ("u2" ∷ []) stored_keys))
        Any
        (delete_events_not_in_uids "c1" ("u2" ∷ []) calm_world)
unfolding event_upsert_input
mutations_as_sets_example =
    mutations_as_sets AnyCalendars stored_keys (event_upsert_input "c1" meeting) "c1" "u1"
      ("u2" ∷ []) calm_world tt (tt, λ c u. refl)
