-- ===== src/Tests/Edits.antt =====
-- The edits of core/internal/ipc on small inputs.
use dankcalendar.Base.{
  ℤ, pos, ◌+ℤ◌, ◌-ℤ◌, ◌≤ℤ◌, true, false, [], ◌∷◌, some, ◌==◌, string_eq, int_eq, lookup, ◌≡◌, refl,
  ◌⊎◌, inl, none,
}
use dankcalendar.Calendar.Types.{Event, Task}
use dankcalendar.Calendar.Json.{text}
use dankcalendar.Conv.Events.{event_upsert_input}
use dankcalendar.Repo.Store.{ok, EventRow, World, quiet, broken}
use dankcalendar.Repo.Events.{select, set_fields}
use dankcalendar.Ipc.Params.{
  Param, value, Params, Parsed, Wire, exdate_value, parse_occurrence_start,
}
use dankcalendar.Ipc.Params.{present, event_from_params}
use dankcalendar.Ipc.Params.Overlay.{Overlaid, event_from_params-Overlaid}
use dankcalendar.Ipc.Events.{
  handle_event_delete, handle_event_create, handle_event_update, handle_event_rsvp,
  domain_event_from_ent, updated_event, without_occurrence,
}
use dankcalendar.Ipc.Events.Updates.{
  edits_occurrence, updated_series_shift, Stripped, sent_events-Stripped,
}
use dankcalendar.Ipc.Tasks.{
  handle_task_create, handle_task_update, handle_task_complete, handle_task_delete, blank_task,
}
use dankcalendar.Ipc.Advance.{completed_task}
use dankcalendar.Ipc.Tasks.Completion.{Moved, Closed, StaysPut, completed_task_outcome}
use dankcalendar.Ipc.Calendars.{
  handle_calendar_set_hidden, handle_calendar_set_sync_disabled, handle_calendar_rename,
  handle_calendar_set_reminders, handle_calendar_delete,
}
use dankcalendar.Ipc.Effects.{Proper}
use dankcalendar.Ipc.Requests.{Told, writes-Proper, settings_announced}
use dankcalendar.Ipc.Events as Events
use dankcalendar.Ipc.Params as Param
use dankcalendar.Calendar.Convert as Convert
use dankcalendar.Tests.Data.{meeting, weekly}
use dankcalendar.Tests.Invites.{texts}
use dankcalendar.Tests.Requests.{wire, build, stored, strict, row}

abbrev shifted_start : Params
shifted_start =
    ("id", value (text "id1"))
    ∷ ("occurrenceStart", value (text "first"))
    ∷ ("start", value (text "second"))
    ∷ []

abbrev world : World
world = record { tables = stored; incidents = quiet ∷ quiet ∷ broken "disk full" ∷ [] }

writes-Proper_example :
    Proper (handle_event_create wire build shifted_start world)
    × Proper (handle_event_update wire build shifted_start world)
    × Proper (handle_event_delete wire build shifted_start world)
    × Proper (handle_task_create wire build shifted_start world)
    × Proper (handle_task_update wire build shifted_start world)
    × Proper (handle_task_complete wire build strict.lib tt (pos 0) shifted_start world)
    × Proper (handle_task_delete wire build shifted_start world)
writes-Proper_example = writes-Proper wire build shifted_start world strict.lib tt (pos 0)

settings_announced_example :
    Told (handle_event_rsvp wire build texts shifted_start world)
    × Told (handle_calendar_set_hidden wire shifted_start world)
    × Told (handle_calendar_set_sync_disabled wire true shifted_start world)
    × Told (handle_calendar_rename wire shifted_start world)
    × Told (handle_calendar_set_reminders wire shifted_start world)
    × Told (handle_calendar_delete wire shifted_start world)
settings_announced_example = settings_announced wire build shifted_start world texts true

abbrev later_meeting : Event
later_meeting = record meeting { start = pos 1500 }

later : event_from_params wire meeting shifted_start ≡ ok later_meeting
unfolding event_from_params Param.with_fields Param.present lookup string_eq Param.with_times
    Param.given_time
later = refl

event_from_params-Overlaid_example : Overlaid wire meeting shifted_start later_meeting
event_from_params-Overlaid_example =
    event_from_params-Overlaid wire meeting shifted_start later_meeting later

abbrev shifted_event : Event
shifted_event = record (domain_event_from_ent row) { start = pos 1500 }

shifted : updated_event wire row shifted_start ≡ ok shifted_event
unfolding updated_event Events.domain_event_from_ent Param.shift_series_times parse_occurrence_start
    select set_fields event_upsert_input Convert.recurrence_from_map event_from_params
    Param.with_fields Param.present lookup string_eq Param.with_times Param.given_time
    Convert.recurrence_to_map ◌+ℤ◌ ◌-ℤ◌
shifted = refl

edits : edits_occurrence wire row shifted_start ≡ true
unfolding string_eq lookup set_fields event_upsert_input Convert.recurrence_to_map
edits = refl

updated_series_shift_example :
    (asked : Event) × (occurrence_start : ℤ) × (event_from_params wire
        (domain_event_from_ent row)
        shifted_start
      ≡ ok asked)
    × (parse_occurrence_start wire "first" row.all_day ≡ ok occurrence_start)
    × (pos 1500 -ℤ row.start ≡ asked.start -ℤ occurrence_start)
    × (shifted_event.end -ℤ pos 1500 ≡ asked.end -ℤ asked.start)
    × (pos 1500 ≤ℤ shifted_event.end)
    × ((wire.param_string shifted_start "start" == "") ≡ true → asked.start ≡ row.start)
unfolding lookup string_eq
updated_series_shift_example =
    updated_series_shift wire row shifted_start shifted_event shifted edits

-- A meeting that does not recur is renamed.
abbrev single : EventRow
single = record row { recurrence = none }

abbrev renaming : Params
renaming = ("summary", value (text "Renamed")) ∷ []

abbrev renamed_event : Event
renamed_event = record (domain_event_from_ent single) { summary = "Renamed" }

renamed : updated_event wire single renaming ≡ ok renamed_event
unfolding updated_event domain_event_from_ent event_from_params Param.with_fields Param.present
    lookup string_eq Param.with_times Param.given_time set_fields event_upsert_input
    Convert.recurrence_from_map
renamed = refl

sent_events-Stripped_example :
    Stripped renamed_event
    × ((renamed_event.transparency ≡ "")
        ⊎ ((present "transparency" renaming ≡ true)
            × (updated_event wire single renaming ≡ ok renamed_event)))
sent_events-Stripped_example =
    sent_events-Stripped wire single renaming (pos 1000) renamed_event (inl renamed)

abbrev repeating : Task
repeating = record blank_task { due = pos 2000; start = pos 1000; recurrence = some weekly }

completed_task_outcome_example :
    (Moved strict.lib tt repeating (completed_task strict.lib tt (pos 1500) true true repeating)
      × (true ≡ true))
    ⊎ (Closed strict.lib tt
          (pos 1500)
          repeating
          (completed_task strict.lib tt (pos 1500) true true repeating)
        × ((true ≡ false) ⊎ StaysPut strict.lib tt repeating repeating.recurrence))
completed_task_outcome_example = completed_task_outcome strict.lib tt (pos 1500) true repeating
