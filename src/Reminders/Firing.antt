-- ===== src/Reminders/Firing.antt =====
-- core/internal/reminders/engine.go: which reminders fire, and what is recorded of them.
pub mod Once
pub mod Rounds
pub mod Snooze
use dankcalendar.Base.{
  ℤ, pos, refl, ap, ◌≡◌, ℕ, ◌+ℤ◌, ◌*ℤ◌, ◌*◌, ◌-ℤ◌, leb_ℤ, ltb_ℤ, String, Bool, true, false, not,
  ◌||◌, ◌&&◌, List, [], ◌∷◌, ◌++◌, Option, none, some, ◌==◌, Eq, string_eq, int_eq, ℤ-discrete,
  contains, if◌then◌else◌, Dict, lookup, put, keep, nat_eq,
}
use dankcalendar.Calendar.Types.{EventStatus, cancelled}
use dankcalendar.Repo.Store.{EventRow, TaskRow}
use dankcalendar.Reminders.Triggers.{
  UiSettings, Trigger, minute, due, task_due, triggers_for, task_triggers_for,
}
use dankcalendar.Reminders.States.{
  StateKey, key_eq, ReminderState, States, set_reminder_fired, snooze_reminder,
  prune_reminder_states, lookahead, state_floor, in_window, state_map,
}

-- `firedReminder`.
pub record FiredReminder : Type 0 where
  pub key : StateKey
  pub meeting_url : String

pub record Engine : Type 0 where
  pub states : States
  pub pending : Dict ℕ FiredReminder

-- A reminder that `Tick` considers: an event's, with its times, or a task's.
pub data Subject : Type 0 where
  of_event : (all_day : Bool) (start end : ℤ) → Subject
  of_task : (all_day : Bool) → Subject

pub record Candidate : Type 0 where
  pub key : StateKey
  pub trigger : Trigger
  pub subject : Subject
  pub meeting_url : String

unfoldable pub subject_due : Trigger → Subject → ℤ → Bool
subject_due tr (of_event all_day start end) now = due tr all_day start end now
subject_due tr (of_task all_day) now = task_due tr all_day now

-- A snoozed reminder of an event that has ended is dropped, one of a task is not.
unfoldable pub snooze_stands : Subject → ℤ → Bool
snooze_stands (of_event all_day start end) now = ltb_ℤ now end
snooze_stands (of_task all_day) now = true

-- The `switch` of `Tick`.
unfoldable pub fires : States → ℤ → Candidate → Bool
fires states now c = elim (lookup c.key states) [
  | none ↦ subject_due c.trigger c.subject now
  | some st ↦ elim st.snoozed_until [
    | none ↦ false
    | some until ↦ if ltb_ℤ now until then false else snooze_stands c.subject now
  ]
]

-- How a call of `Send` goes, and whether the statement after it succeeds.
pub data Delivery : Type 0 where
  undelivered : Delivery
  delivered : (id : ℕ) (recorded : Bool) → Delivery

pub record Ticked : Type 0 where
  pub engine : Engine
  pub fired : List StateKey

unfoldable pub fire : Candidate → ℤ → Delivery → Engine → Ticked
fire c now undelivered e = record { engine = e; fired = [] }
fire c now (delivered id recorded) e = record {
  engine = record {
    states = if recorded then set_reminder_fired c.key now e.states else e.states;
    pending = put id (record { key = c.key; meeting_url = c.meeting_url }) e.pending;
  };
  fired = c.key ∷ [];
}

-- The loops of `Tick`: the states are read before the first reminder fires. After the last delivery
-- the sender fails.
unfoldable pub fire_all : States → ℤ → List Delivery → List Candidate → Engine → Ticked
fire_all states now ds [] e = record { engine = e; fired = [] }
fire_all states now [] (c ∷ cs) e = record { engine = e; fired = [] }
fire_all states now (d ∷ ds) (c ∷ cs) e =
    let t = fire c now d e in
    let fired = fire_all states now ds cs t.engine in
    let passed = fire_all states now (d ∷ ds) cs e in
    if fires states now c
    then record { engine = fired.engine; fired = t.fired ++ fired.fired }
    else passed

-- `Resolve` has given the settings of each calendar.
unfoldable pub resolved_for : Dict String UiSettings → String → UiSettings → UiSettings
resolved_for resolved calendar_id base = elim (lookup calendar_id resolved) [
  | none ↦ base
  | some s ↦ s
]

unfoldable pub is_cancelled : EventStatus → Bool
is_cancelled cancelled = true
is_cancelled _ = false

unfoldable pub event_candidates_of : EventRow → List Trigger → List Candidate
event_candidates_of ev [] = []
event_candidates_of ev (tr ∷ trs) =
    record {
      key = record {
        calendar_id = ev.calendar_id;
        uid = ev.uid;
        start = ev.start;
        minutes = tr.minutes;
      };
      trigger = tr;
      subject = of_event ev.all_day ev.start ev.end;
      meeting_url = ev.meeting_url;
    }
    ∷ event_candidates_of ev trs

unfoldable pub task_candidates_of : TaskRow → List (ℤ × Trigger) → List Candidate
task_candidates_of task [] = []
task_candidates_of task ((base, tr) ∷ trs) =
    record {
      key = record {
        calendar_id = task.calendar_id;
        uid = task.uid;
        start = base;
        minutes = tr.minutes;
      };
      trigger = tr;
      subject = of_task task.all_day;
      meeting_url = "";
    }
    ∷ task_candidates_of task trs

-- The rows are those that `ListEvents` and `ListTasks` return.
module _ (local_midnight : ℤ → ℤ) (clock_on : String → ℤ → ℤ → ℤ)
    (resolved : Dict String UiSettings) (hidden : List String) (base : UiSettings) where
  unfoldable pub event_candidates : List EventRow → List Candidate
  event_candidates [] = []
  event_candidates (ev ∷ evs) =
      let rest = event_candidates evs in
      let cs = resolved_for resolved ev.calendar_id base in
      if is_cancelled ev.status
        || contains hidden ev.calendar_id
        || ev.calendar_id == ""
        || not cs.reminders_enabled
      then rest
      else event_candidates_of ev (triggers_for local_midnight clock_on ev cs) ++ rest

  unfoldable pub task_candidates : List TaskRow → List Candidate
  task_candidates [] = []
  task_candidates (task ∷ tasks) =
      let rest = task_candidates tasks in
      let cs = resolved_for resolved task.calendar_id base in
      elim (lookup task.calendar_id resolved) [
        | none ↦ rest
        | some s ↦
            if contains hidden task.calendar_id || not cs.reminders_enabled
            then rest
            else task_candidates_of task (task_triggers_for local_midnight clock_on task cs) ++ rest
      ]

  unfoldable pub tick : ℤ → List EventRow → List TaskRow → List Delivery → Engine → Ticked
  tick now events tasks deliveries e =
      if base.reminders_enabled
      then fire_all (state_map now e.states) now deliveries
          (event_candidates events ++ task_candidates tasks) e
      else record { engine = e; fired = [] }

-- What `Upcoming` lists of a candidate, by the states of `state_map`: when it triggers, and whether it was snoozed.
unfoldable pub upcoming : States → ℤ → Candidate → Option (ℤ × Bool)
upcoming states now c = elim (lookup c.key states) [
  | none ↦ if ltb_ℤ now c.trigger.at then some (c.trigger.at, false) else none
  | some st ↦ elim st.snoozed_until [
    | none ↦ none
    | some until ↦ if ltb_ℤ now until then some (until, true) else none
  ]
]

pub data Action : Type 0 where
  snooze snooze_start join default dismiss other : Action

-- `cal.ReminderOverrides.Resolve(s)`, where `GetCalendar` finds the calendar.
abbrev pub settings_for : UiSettings → Option UiSettings → UiSettings
settings_for base none = base
settings_for base (some resolved) = resolved

-- `SnoozeReminder`, which writes nothing where it fails.
abbrev pub try_snooze : Bool → StateKey → ℤ → Engine → Engine
try_snooze saved key until e =
    if saved then record e { states = snooze_reminder key until e.states } else e

-- `HandleAction`, as far as the states go. `resolved` is what `Resolve` gives for the calendar, none where
-- `GetCalendar` fails, and `saved` whether `SnoozeReminder` succeeds: its error is only logged.
unfoldable pub handle_action :
    UiSettings → Option UiSettings → Bool → ℤ → ℕ → Action → Engine → Engine
handle_action base resolved saved now id action e = elim (lookup id e.pending) [
  | none ↦ e
  | some fired ↦ elim action [
    | snooze ↦
        let s = settings_for base resolved in
        try_snooze saved fired.key (now +ℤ s.snooze_minutes *ℤ pos minute) e
    | snooze_start ↦
        if ltb_ℤ now fired.key.start then try_snooze saved fired.key fired.key.start e else e
    | join ↦ e
    | default ↦ e
    | dismiss ↦ e
    | other ↦ e
  ]
]

unfoldable pub handle_closed : ℕ → Engine → Engine
handle_closed id e = record e { pending = keep (λ key. not (key == id)) e.pending }
