-- ===== src/Ipc/Params/Tasks.antt =====
-- core/internal/ipc/tasks.go: what the parameters of a request make of a task.
use dankcalendar.Base.{
  ℤ, String, false, List, Option, none, some, ◌==◌, string_eq, if◌then◌else◌, lookup,
}
use dankcalendar.Calendar.Types.{Reminder, Task, TaskStatus, zero_time}
use dankcalendar.Calendar.Json.{text}
use dankcalendar.Repo.Store.{Result, ok}
use dankcalendar.Ipc.Params.{
  Param, null, array, table, value, Params, Wire, and_then, given, time_or, given_reminders,
  given_recurrence,
}

module _ (w : Wire) where
  unfoldable pub task_status_from_param : String → TaskStatus
  task_status_from_param s =
      if s == "in_process"
      then TaskStatus.in_process
      else if s == "completed"
      then TaskStatus.completed
      else if s == "cancelled"
      then TaskStatus.cancelled
      else TaskStatus.needs_action

  abbrev text_param : Param → String
  text_param (value (text s)) = s
  text_param (value _) = ""
  text_param null = ""
  text_param (array is) = ""
  text_param (table m) = ""

  unfoldable pub parse_optional_time : String → Param → Result ℤ
  parse_optional_time key raw =
      if text_param raw == ""
      then ok zero_time
      else time_or key false (w.parse_rfc3339 (text_param raw))

  abbrev given_optional_time : String → Option Param → ℤ → Result ℤ
  given_optional_time key none old = ok old
  given_optional_time key (some raw) old = parse_optional_time key raw

  unfoldable pub task_with_fields : Task → Params → List Reminder → Task
  task_with_fields base p reminders = record base {
    summary = given p "summary" (w.param_string p "summary") base.summary;
    description = given p "description" (w.param_string p "description") base.description;
    location = given p "location" (w.param_string p "location") base.location;
    all_day = given p "allDay" (w.param_bool p "allDay") base.all_day;
    parent_uid = given p "parentUid" (w.param_string p "parentUid") base.parent_uid;
    priority = given p "priority" (w.param_int p "priority") base.priority;
    percent_complete =
        given p "percentComplete" (w.param_int p "percentComplete") base.percent_complete;
    status =
        given p "status" (some (task_status_from_param (w.param_string p "status"))) base.status;
    reminders = reminders;
    recurrence = given_recurrence (lookup "recurrence" p) base.recurrence;
  }

  -- `taskFromParams`
  unfoldable pub task_from_params : Task → Params → Result Task
  task_from_params base p =
      and_then (given_reminders (lookup "reminders" p) base.reminders) λ reminders.
        and_then (given_optional_time "due" (lookup "due" p) base.due) λ due.
          and_then (given_optional_time "start" (lookup "start" p) base.start)
            λ start. ok (record (task_with_fields base p reminders) { due = due; start = start })
