-- ===== src/Tests/Reminders.antt =====
-- The reminders of core/internal/reminders/engine.go on small inputs.
use dankcalendar.Base.{
  keep, ℤ, pos, ◌+ℤ◌, ◌*ℤ◌, ◌-ℤ◌, ℕ_discrete, ltb_ℤ, String, true, false, not, ◌&&◌, [], ◌∷◌, none,
  some, ◌≡◌, refl, ◌==◌, string_eq, int_eq, nat_eq, ℤ-discrete, contains, if◌then◌else◌, lookup,
  put,
}
use dankcalendar.Calendar.Types.{is_zero, related_to_end}
use dankcalendar.Reminders.Triggers.{
  UiSettings, popup_minutes_of, due, triggers_for, triggers_at, task_due, popup_loop, is_popup,
  before_by,
}
use dankcalendar.Reminders.Firing.{
  of_task, Engine, Candidate, of_event, snooze_stands, fires, snooze, handle_action, delivered,
  tick, fire_all, fire, event_candidates, is_cancelled, resolved_for, event_candidates_of,
  task_candidates, subject_due,
}
use dankcalendar.Reminders.States.{state_map, in_window, States, StateKey, key_eq}
use dankcalendar.Reminders.Firing.Rounds.{Round, round, rounds, fires_once}
use dankcalendar.Reminders.Firing.Snooze.{snooze_end, snooze_defers}
use dankcalendar.Repo.Events.{set_fields}
use dankcalendar.Conv.Events.{event_upsert_input, event_status}
use dankcalendar.Calendar.Convert.{
  reminders_from_maps, reminders_to_maps, kept_reminders, minutes_of, reminder_from_map,
  reminder_to_map, write_text,
}
use dankcalendar.Calendar.Json.{as_text, get}
use dankcalendar.Tests.Data.{tables}

abbrev settings : UiSettings
settings = record {
  reminders_enabled = true;
  default_reminder_minutes = pos 10;
  all_day_reminders = true;
  all_day_reminder_days_before = pos 0;
  all_day_reminder_time = "09:00";
  snooze_minutes = pos 5;
  use_24_hour_clock = true;
  reminder_persist = true;
  notification_sounds = false;
  sync_interval_minutes = pos 30;
}

abbrev key : StateKey
key = record { calendar_id = "c1"; uid = "u1"; start = pos 1000000000000; minutes = pos 10 }

abbrev idle : Engine
idle = record { states = []; pending = [] }

abbrev shown : Engine
shown = record {
  states = (key, record { fired_at = some (pos 400000000000); snoozed_until = none }) ∷ [];
  pending = (1, record { key = key; meeting_url = "" }) ∷ [];
}

abbrev candidate : Candidate
candidate = record {
  key = key;
  trigger = record { at = pos 400000000000; minutes = pos 10 };
  subject = of_event false (pos 1000000000000) (pos 2000000000000);
  meeting_url = "";
}

snooze_defers_example :
    fires
      (state_map
        (pos 800000000000)
        (handle_action settings none true (pos 450000000000) 1 snooze shown).states)
      (pos 800000000000)
      candidate
    ≡ (if true && (key == key && in_window (pos 800000000000) key)
        then not (ltb_ℤ (pos 800000000000) (snooze_end settings none (pos 450000000000)))
          && snooze_stands candidate.subject (pos 800000000000)
        else fires (state_map (pos 800000000000) shown.states) (pos 800000000000) candidate)
unfolding lookup nat_eq
snooze_defers_example =
    snooze_defers settings none true (pos 450000000000) 1 shown
      (record { key = key; meeting_url = "" }) refl candidate (pos 800000000000)

abbrev no_zone : ℤ → ℤ
no_zone t = t

abbrev no_clock : String → ℤ → ℤ → ℤ
no_clock text days t = t

abbrev at_start : Round
at_start = record {
  now = pos 1000;
  base = settings;
  resolved = [];
  hidden = [];
  events = tables.events;
  tasks = [];
  deliveries = delivered 1 true ∷ [];
}

abbrev fired_key : StateKey
fired_key = record { calendar_id = "c1"; uid = "u1"; start = pos 1000; minutes = pos 10 }

first_fires : contains (round no_zone no_clock at_start idle).fired fired_key ≡ true
unfolding state_map keep ◌+ℤ◌ tick fire_all fire fires lookup put event_candidates is_cancelled
    set_fields event_upsert_input event_status string_eq resolved_for event_candidates_of
    triggers_for triggers_at popup_minutes_of popup_loop reminders_from_maps reminders_to_maps
    is_popup subject_due due int_eq ℤ-discrete ◌*ℤ◌ ◌-ℤ◌ kept_reminders minutes_of reminder_from_map
    reminder_to_map write_text as_text get is_zero related_to_end key_eq before_by ℕ_discrete
    task_candidates
first_fires = refl

near : in_window (pos 1000) fired_key ≡ true
unfolding ◌-ℤ◌ ◌+ℤ◌
near = refl

fires_once_example :
    contains
      (rounds no_zone no_clock
        (at_start ∷ at_start ∷ [])
        (round no_zone no_clock at_start idle).engine)
      fired_key
    ≡ false
fires_once_example =
    fires_once no_zone no_clock fired_key at_start idle (at_start ∷ at_start ∷ []) (refl, tt)
      first_fires (near, (near, tt))

-- A task that is due in sixty days, with an alarm sixty days before.
abbrev far_task : Candidate
far_task = record {
  key = record {
    calendar_id = "c1";
    uid = "t1";
    start = pos 5184000000000000;
    minutes = pos 86400;
  };
  trigger = record { at = pos 0; minutes = pos 86400 };
  subject = of_task false;
  meeting_url = "";
}

abbrev far_states : States
far_states = (far_task.key, record { fired_at = some (pos 0); snoozed_until = none }) ∷ []

far_task_run : fires (state_map (pos 1000) far_states) (pos 1000) far_task ≡ true
unfolding fires state_map keep lookup subject_due task_due ◌-ℤ◌ ◌+ℤ◌
far_task_run = refl
