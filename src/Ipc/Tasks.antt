-- ===== src/Ipc/Tasks.antt =====
-- core/internal/ipc/tasks.go: the requests on tasks.
pub mod Completion
use dankcalendar.Base.{
  ℤ, pos, ◌+ℤ◌, ◌-ℤ◌, ℕ, String, Bool, true, false, not, ◌&&◌, List, [], ◌∷◌, is_empty, Option,
  none, some, ◌==◌, string_eq, if◌then◌else◌,
}
use dankcalendar.Calendar.Types.{
  AccountKind, microsoft, Calendar, Recurrence, Task, TaskStatus, needs_action, completed,
  zero_time, is_zero,
}
use dankcalendar.Calendar.Rsvp.{Account}
use dankcalendar.Conv.Tasks.{task_upsert_input, task_from_row}
use dankcalendar.Recurrence.{Library, Series, advance}
use dankcalendar.Repo.Store.{Error, refused, Result, ok, err, TaskRow, CalendarRow, AccountRow}
use dankcalendar.Repo.Tasks.{upsert_task, delete_task}
use dankcalendar.Repo.Queries.{ListTasksParams, get_task, list_tasks}
use dankcalendar.Rsvp.{get_calendar_with_account}
use dankcalendar.Ipc.Params.{Params, Wire, present, and_then}
use dankcalendar.Ipc.Params.Tasks.{task_from_params}
use dankcalendar.Ipc.Handler.{
  TaskWriter, Provider, task_created, task_updated, task_deleted, Answer, task_found, tasks_found,
  was_deleted, Handler, ◌>>=◌, ◌>>◌, respond_with, respond, refuse, run_repo, try_repo, publish,
  call_provider, provider_for_calendar,
}
use dankcalendar.Ipc.Advance.{
  reopened, finished, base_of, series_of_task, moved_by, advanced_to, advance_recurring_task,
  advanced_or_finished, completed_task,
}

abbrev pub blank_task : Task
blank_task = record {
  id = "";
  calendar_id = "";
  uid = "";
  remote_id = "";
  etag = "";
  summary = "";
  description = "";
  location = "";
  status = some needs_action;
  priority = pos 0;
  percent_complete = pos 0;
  due = zero_time;
  start = zero_time;
  completed = zero_time;
  all_day = false;
  due_time_zone = "";
  start_time_zone = "";
  parent_uid = "";
  recurrence = none;
  categories = none;
  reminders = [];
  raw_ics = "";
}

abbrev zone_for : String → String → ℤ → String
zone_for tz zone t = if zone == "" && not (is_zero t) then tz else zone

unfoldable pub task_with_local_zone : String → Task → Task
task_with_local_zone tz t =
    if not t.all_day && not (tz == "")
    then record t {
      due_time_zone = zone_for tz t.due_time_zone t.due;
      start_time_zone = zone_for tz t.start_time_zone t.start;
    }
    else t

abbrev titled : Task → Result Task
titled t = if t.summary == "" then err (refused "summary is required") else ok t

abbrev pub writer_of : Option TaskWriter → Provider → Calendar → Result (TaskWriter × Calendar)
writer_of none p c = err (refused "account does not support tasks")
writer_of (some writer) p c = ok (writer, c)

abbrev is_microsoft : AccountKind → Bool
is_microsoft AccountKind.microsoft = true
is_microsoft AccountKind.local = false
is_microsoft AccountKind.google = false
is_microsoft AccountKind.caldav = false
is_microsoft AccountKind.ical = false
is_microsoft AccountKind.evolution = false

abbrev pub advances : Result (CalendarRow × Option AccountRow) → Bool
advances (err e) = false
advances (ok (c, none)) = false
advances (ok (c, some a)) = not (is_microsoft a.kind)

-- `recurringTaskAdvances`
unfoldable pub recurring_task_advances : String → Handler Bool
recurring_task_advances calendar_id =
    try_repo (get_calendar_with_account calendar_id) >>= λ found. respond (advances found)

module _ (w : Wire) (build : Account → Result Provider) where
  -- `taskWriterForCalendar`
  unfoldable pub task_writer_for_calendar : String → Handler (TaskWriter × Calendar)
  task_writer_for_calendar calendar_id = provider_for_calendar build calendar_id >>= λ found.
      respond_with (writer_of found.0.task_writer found.0 found.1)

  unfoldable pub respond_persisted_task : String → Task → Handler Answer
  respond_persisted_task calendar_id t =
      run_repo (upsert_task (task_upsert_input calendar_id t)) >>= λ stored.
      publish "tasks" "changed" calendar_id >> respond (task_found stored)

  unfoldable pub create_task_by : Task → TaskWriter × Calendar → Handler Answer
  create_task_by t (writer, c) =
      call_provider "create task" c (task_created t) (writer.create_task c t)
      >>= respond_persisted_task c.id

  unfoldable pub handle_task_create : Params → Handler Answer
  handle_task_create p =
      let calendar_id = w.param_string p "calendarId" in
      if calendar_id == ""
      then refuse "calendarId is required"
      else respond_with (and_then (task_from_params w blank_task p) titled) >>= λ t.
          task_writer_for_calendar calendar_id
          >>= create_task_by (task_with_local_zone w.local_name t)

  unfoldable pub update_task_by : Task → TaskWriter × Calendar → Handler Answer
  update_task_by t (writer, c) =
      call_provider "update task" c (task_updated t) (writer.update_task c t)
      >>= respond_persisted_task c.id

  -- `updateTask`
  unfoldable pub update_task : String → Task → Handler Answer
  update_task calendar_id t = task_writer_for_calendar calendar_id >>= update_task_by t

  abbrev pub in_some_calendar : TaskRow → Result TaskRow
  in_some_calendar row =
      if row.calendar_id == "" then err (refused "task has no calendar") else ok row

  -- `loadTaskCalendar`
  unfoldable pub load_task_calendar : Params → Handler TaskRow
  load_task_calendar p =
      let id = w.param_string p "id" in
      if id == ""
      then refuse "id is required"
      else run_repo (get_task id) >>= λ row. respond_with (in_some_calendar row)

  unfoldable pub handle_task_update : Params → Handler Answer
  handle_task_update p = load_task_calendar p >>= λ row.
      respond_with (task_from_params w (task_from_row row) p) >>= update_task row.calendar_id

  -- `now` is `time.Now().UTC()`.
  module _ (lib : Library) (utc : lib.Location) (now : ℤ) where
    abbrev is_done : Params → Bool
    is_done p = if present "completed" p then w.param_bool p "completed" else true

    -- `done && recurringTaskAdvances(…)`, which asks only where it has to.
    unfoldable pub done_and_advances : Bool → String → Handler Bool
    done_and_advances done calendar_id =
        if done then recurring_task_advances calendar_id else respond false

    unfoldable pub handle_task_complete : Params → Handler Answer
    handle_task_complete p = load_task_calendar p >>= λ row.
        done_and_advances (is_done p) row.calendar_id >>= λ moves.
        update_task row.calendar_id
          (completed_task lib utc now (is_done p) moves (task_from_row row))

  unfoldable pub delete_task_by : TaskRow → TaskWriter × Calendar → Handler Answer
  delete_task_by row (writer, c) =
      call_provider "delete task" c (task_deleted (task_from_row row))
        (writer.delete_task c (task_from_row row))
      >>= λ u. run_repo (delete_task row.id) >>= λ n.
          publish "tasks" "changed" row.calendar_id >> respond was_deleted

  unfoldable pub handle_task_delete : Params → Handler Answer
  handle_task_delete p = load_task_calendar p >>= λ row.
      task_writer_for_calendar row.calendar_id >>= delete_task_by row

  unfoldable handle_task_get : Params → Handler Answer
  handle_task_get p =
      let id = w.param_string p "id" in
      if id == ""
      then refuse "id is required"
      else run_repo (get_task id) >>= λ row. respond (task_found row)

  abbrev one_calendar : String → List String
  one_calendar id = if id == "" then [] else id ∷ []

  -- `contains_fold` and `order_tasks` are SQL's.
  unfoldable handle_task_list :
      (String → String → Bool) → (List TaskRow → List TaskRow) → Params → Handler Answer
  handle_task_list contains_fold order_tasks p =
      run_repo (
        list_tasks contains_fold order_tasks (record {
          filter = record {
            calendar_ids = one_calendar (w.param_string p "calendarId");
            include_completed =
                if present "includeCompleted" p then w.param_bool p "includeCompleted" else true;
            query = w.param_string p "query";
          };
          limit = w.param_int p "limit";
          offset = w.param_int p "offset";
        }))
      >>= λ found. respond (tasks_found found.0 found.1)
