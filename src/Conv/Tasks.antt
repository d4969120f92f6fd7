-- ===== src/Conv/Tasks.antt =====
-- core/internal/taskconv/taskconv.go
use dankcalendar.Base.{String, Option, none, some}
use dankcalendar.Calendar.Types.{Task, TaskStatus, needs_action, in_process, completed, cancelled}
use dankcalendar.Calendar.Convert.{
  reminders_to_maps, reminders_from_maps, recurrence_to_map, recurrence_from_map,
}
use dankcalendar.Repo.Store.{TaskRow}
use dankcalendar.Repo.Tasks.{UpsertTaskInput}
use dankcalendar.Conv.Events.{or_zero}

-- `EntStatus`
unfoldable pub task_status : Option TaskStatus → TaskStatus
task_status (some in_process) = in_process
task_status (some completed) = completed
task_status (some cancelled) = cancelled
task_status (some needs_action) = needs_action
task_status none = needs_action

-- `UpsertInput`
unfoldable pub task_upsert_input : String → Task → UpsertTaskInput
task_upsert_input calendar_id t = record {
  id = "";
  calendar_id = calendar_id;
  uid = t.uid;
  remote_id = t.remote_id;
  etag = t.etag;
  summary = t.summary;
  description = t.description;
  location = t.location;
  status = some (task_status t.status);
  priority = t.priority;
  percent_complete = t.percent_complete;
  due = t.due;
  start = t.start;
  completed = t.completed;
  all_day = t.all_day;
  due_tz = t.due_time_zone;
  start_tz = t.start_time_zone;
  parent_uid = t.parent_uid;
  recurrence = recurrence_to_map t.recurrence;
  reminders = reminders_to_maps t.reminders;
  categories = t.categories;
  raw_ics = t.raw_ics;
}

-- `FromEnt`
unfoldable pub task_from_row : TaskRow → Task
task_from_row r = record {
  id = r.id;
  calendar_id = r.calendar_id;
  uid = r.uid;
  remote_id = r.remote_id;
  etag = r.etag;
  summary = r.summary;
  description = r.description;
  location = r.location;
  status = some r.status;
  priority = r.priority;
  percent_complete = r.percent_complete;
  due = or_zero r.due;
  start = or_zero r.start;
  completed = or_zero r.completed;
  all_day = r.all_day;
  due_time_zone = r.due_tz;
  start_time_zone = r.start_tz;
  parent_uid = r.parent_uid;
  recurrence = recurrence_from_map r.recurrence;
  categories = r.categories;
  reminders = reminders_from_maps r.reminders;
  raw_ics = r.raw_ics;
}
