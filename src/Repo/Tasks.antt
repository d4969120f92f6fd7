-- ===== src/Repo/Tasks.antt =====
-- core/repo/tasks_mutations.go, as far as synchronisation uses it.
pub mod Frame
pub mod Rules
use dankcalendar.Base.{
  ℤ, ℕ, suc, String, Bool, true, false, not, ◌&&◌, ◌||◌, List, [], ◌∷◌, Option, none, some, ◌==◌,
  contains, string_eq, if◌then◌else◌,
}
use dankcalendar.Calendar.Types.{TaskStatus, needs_action, is_zero}
use dankcalendar.Calendar.Json.{JsonMap}
use dankcalendar.Repo.Store.{
  Error, not_found, constraint, Result, ok, err, TaskRow, Tables, M, ◌>>=◌, pure, raise, attempt,
  query, update, only,
}
use dankcalendar.Repo.Events.{select, or_kept, choose_id, is_constraint, is_not_found}

pub record UpsertTaskInput : Type 0 where
  pub id : String
  pub calendar_id : String
  pub uid : String
  pub remote_id : String
  pub etag : String
  pub summary : String
  pub description : String
  pub location : String
  pub status : Option TaskStatus
  pub priority : ℤ
  pub percent_complete : ℤ
  pub due : ℤ
  pub start : ℤ
  pub completed : ℤ
  pub all_day : Bool
  pub due_tz : String
  pub start_tz : String
  pub parent_uid : String
  pub recurrence : Option JsonMap
  pub reminders : Option (List JsonMap)
  pub categories : Option (List String)
  pub raw_ics : String

-- `if t.IsZero() { m.ClearX() } else { m.SetX(t) }`
abbrev set_or_clear : ℤ → Option ℤ
set_or_clear t = if is_zero t then none else some t

abbrev or_task_status : Option TaskStatus → TaskStatus → TaskStatus
or_task_status none old = old
or_task_status (some new) old = new

-- The setters of `UpsertTask` and `applyTaskUpdate`, with `applyTaskOptionals`.
unfoldable pub set_task_fields : UpsertTaskInput → TaskRow → TaskRow
set_task_fields input r = record {
  id = r.id;
  calendar_id = r.calendar_id;
  uid = r.uid;
  remote_id = input.remote_id;
  etag = input.etag;
  summary = input.summary;
  description = input.description;
  location = input.location;
  status = or_task_status input.status r.status;
  priority = input.priority;
  percent_complete = input.percent_complete;
  due = set_or_clear input.due;
  start = set_or_clear input.start;
  completed = set_or_clear input.completed;
  all_day = input.all_day;
  due_tz = input.due_tz;
  start_tz = input.start_tz;
  parent_uid = input.parent_uid;
  recurrence = or_kept input.recurrence r.recurrence;
  reminders = or_kept input.reminders r.reminders;
  categories = or_kept input.categories r.categories;
  raw_ics = input.raw_ics;
}

abbrev pub blank_task : String → String → String → TaskRow
blank_task id calendar_id uid = record {
  id = id;
  calendar_id = calendar_id;
  uid = uid;
  remote_id = "";
  etag = "";
  summary = "";
  description = "";
  location = "";
  status = needs_action;
  priority = ℤ.pos 0;
  percent_complete = ℤ.pos 0;
  due = none;
  start = none;
  completed = none;
  all_day = false;
  due_tz = "";
  start_tz = "";
  parent_uid = "";
  recurrence = none;
  reminders = none;
  categories = none;
  raw_ics = "";
}

abbrev has_task_key : String → String → TaskRow → Bool
has_task_key calendar_id uid r = r.calendar_id == calendar_id && r.uid == uid

unfoldable pub find_task_by_uid : String → String → M TaskRow
find_task_by_uid calendar_id uid = query λ t. only (select (has_task_key calendar_id uid) t.tasks)

unfoldable pub update_task_rows : String → (TaskRow → TaskRow) → List TaskRow → List TaskRow
update_task_rows id f [] = []
update_task_rows id f (r ∷ rs) = (if r.id == id then f r else r) ∷ update_task_rows id f rs

unfoldable pub apply_task_update : String → UpsertTaskInput → M TaskRow
apply_task_update id input = update λ t.
    let rows = update_task_rows id (set_task_fields input) t.tasks in
    (only (select (λ (r : TaskRow). r.id == id) rows), record t { tasks = rows })

unfoldable pub insert_task : TaskRow → Tables → Result TaskRow × Tables
insert_task r t =
    elim (select (λ (x : TaskRow). x.id == r.id || has_task_key r.calendar_id r.uid x) t.tasks) [
      | [] ↦ (ok r, record t { tasks = r ∷ t.tasks })
      | _ ∷ _ ↦ (err constraint, t)
    ]

unfoldable pub settle_found_task : UpsertTaskInput → Error → Result TaskRow → M TaskRow
settle_found_task input e (ok r) = apply_task_update r.id input
settle_found_task input e (err _) = raise e

unfoldable pub settle_task : UpsertTaskInput → Result TaskRow → M TaskRow
settle_task input (ok r) = pure r
settle_task input (err e) =
    if is_constraint e
    then attempt (find_task_by_uid input.calendar_id input.uid) >>= settle_found_task input e
    else raise e

unfoldable pub create_task : UpsertTaskInput → M TaskRow
create_task input = do
  id ← choose_id input.id
  made ←
      attempt
        (update (insert_task (set_task_fields input (blank_task id input.calendar_id input.uid))))
  settle_task input made

unfoldable pub after_find_task : UpsertTaskInput → Result TaskRow → M TaskRow
after_find_task input (ok r) = apply_task_update r.id input
after_find_task input (err e) = if is_not_found e then create_task input else raise e

unfoldable pub upsert_task : UpsertTaskInput → M TaskRow
upsert_task input = do
  found ← attempt (find_task_by_uid input.calendar_id input.uid)
  after_find_task input found

unfoldable pub count_tasks : List TaskRow → ℕ
count_tasks [] = 0
count_tasks (r ∷ rs) = suc (count_tasks rs)

unfoldable pub delete_tasks_where : (TaskRow → Bool) → M ℕ
delete_tasks_where p =
    update λ t.
      (ok (count_tasks (select p t.tasks)), record t { tasks = select (λ r. not (p r)) t.tasks })

abbrev task_uid_not_in : List String → TaskRow → Bool
task_uid_not_in [] r = true
task_uid_not_in (u ∷ us) r = not (contains (u ∷ us) r.uid)

unfoldable pub delete_task : String → M ℕ
delete_task id = delete_tasks_where (λ r. r.id == id)

unfoldable pub delete_tasks_not_in_uids : String → List String → M ℕ
delete_tasks_not_in_uids calendar_id uids =
    delete_tasks_where λ r. r.calendar_id == calendar_id && task_uid_not_in uids r

unfoldable pub delete_task_by_uid : String → String → M ℕ
delete_task_by_uid calendar_id uid = delete_tasks_where (has_task_key calendar_id uid)
