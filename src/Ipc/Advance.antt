-- ===== src/Ipc/Advance.antt =====
-- core/internal/ipc/tasks.go: what completing a task makes of it.
use dankcalendar.Base.{
  ℤ, pos, ◌+ℤ◌, ◌-ℤ◌, String, Bool, List, is_empty, Option, none, some, string_eq, if◌then◌else◌,
}
use dankcalendar.Calendar.Types.{Recurrence, Task, needs_action, completed, zero_time, is_zero}
use dankcalendar.Recurrence.{Library, Series, advance}

-- The default of the switch of `handleTaskComplete`, and the case before it.
unfoldable pub reopened : Task → Task
reopened t = record t {
  status = some needs_action;
  percent_complete = pos 0;
  completed = zero_time;
}

unfoldable pub finished : ℤ → Task → Task
finished now t = record t { status = some completed; percent_complete = pos 100; completed = now }

-- `utc` is the zone of the times that `FromEnt` gives.
module _ (lib : Library) (utc : lib.Location) where
  unfoldable pub base_of : Task → ℤ
  base_of t = if is_zero t.start then t.due else t.start

  unfoldable pub series_of_task : Task → Recurrence → Series lib
  series_of_task t rec = record {
    start = base_of t;
    start_location = utc;
    all_day = t.all_day;
    time_zone = if is_zero t.start then t.due_time_zone else t.start_time_zone;
    rrule = rec.rrule;
    rdate = rec.rdate;
    exdate = rec.exdate;
  }

  abbrev pub moved_by : ℤ → ℤ → ℤ
  moved_by delta t = if is_zero t then t else t +ℤ delta

  abbrev pub advanced_to : Task → Recurrence → Option (ℤ × List String) → Option Task
  advanced_to t rec none = none
  advanced_to t rec (some (next, rules)) =
      let delta = next -ℤ base_of t in
      some (
        reopened (record t {
          start = moved_by delta t.start;
          due = moved_by delta t.due;
          recurrence = some (record rec { rrule = rules });
        }))

  -- `advanceRecurringTask`; `none` is false, where the task stays as it is.
  unfoldable pub advance_recurring_task : Task → Option Recurrence → Option Task
  advance_recurring_task t none = none
  advance_recurring_task t (some rec) =
      if is_empty rec.rrule
      then none
      else if is_zero (base_of t)
      then none
      else advanced_to t rec (advance lib (series_of_task t rec))

  abbrev pub advanced_or_finished : ℤ → Task → Option Task → Task
  advanced_or_finished now t none = finished now t
  advanced_or_finished now t (some advanced) = advanced

  -- The switch of `handleTaskComplete`.
  unfoldable pub completed_task : ℤ → Bool → Bool → Task → Task
  completed_task now done moves t =
      if done
      then (if moves
          then advanced_or_finished now t (advance_recurring_task t t.recurrence)
          else finished now t)
      else reopened t
