-- ===== src/Ipc/Proper/Tasks.antt =====
-- The requests of core/internal/ipc on tasks.
use dankcalendar.Base.{
  ℤ, String, Bool, true, false, Option, none, some, ◌==◌, string_eq, if◌then◌else◌, ◌≡◌, refl,
  arith,
}
use dankcalendar.Calendar.Types.{Calendar, Task}
use dankcalendar.Calendar.Rsvp.{Account}
use dankcalendar.Recurrence.{Library}
use dankcalendar.Repo.Store.{Result, ok, TaskRow, World}
use dankcalendar.Ipc.Params.{Params, Wire}
use dankcalendar.Ipc.Handler.{TaskWriter, Provider, Handler, ◌>>=◌, run_repo, provider_for_calendar}
use dankcalendar.Ipc.Tasks.{
  writer_of, advances, recurring_task_advances, task_writer_for_calendar, respond_persisted_task,
  create_task_by, handle_task_create, update_task_by, update_task, load_task_calendar,
  handle_task_update, done_and_advances, handle_task_complete, delete_task_by, handle_task_delete,
  in_some_calendar,
}
use dankcalendar.Ipc.Proper.{
  Anything, Writable, run_repo-Silent, try_repo-Silent, respond_with-Silent, then-Proper,
  then-Announced, then-Silent, if-Proper, refuse-Proper, publish-Announced, call_provider-Proper,
  provider_for_calendar-Silent,
}
use dankcalendar.Ipc.Effects.{Proper, Silent, Announced}

module _ (w : Wire) (build : Account → Result Provider) where
  abbrev MayWrite : TaskWriter × Calendar → Type 0
  MayWrite (writer, c) = c.read_only ≡ false

  writer_of-MayWrite :
      (o : Option TaskWriter) (p : Provider) (c : Calendar) (found : TaskWriter × Calendar)
      → c.read_only ≡ false
      → writer_of o p c ≡ ok found
      → MayWrite found
  writer_of-MayWrite none p c found h e = absurd (ground arith)
  writer_of-MayWrite (some writer) p c (other, d) h e = ground arith

  task_writer-Silent :
      (calendar_id : String) (world : World)
      → Silent MayWrite (task_writer_for_calendar w build calendar_id world)
  unfolding task_writer_for_calendar
  task_writer-Silent calendar_id =
      then-Silent Writable _ MayWrite (provider_for_calendar build calendar_id)
        (provider_for_calendar-Silent build calendar_id)
        (λ found h world. record {
          effects_none = refl;
          gives = λ a e. writer_of-MayWrite found.0.task_writer found.0 found.1 a h e;
        })

  persist_task-Announced :
      (calendar_id : String) (t : Task) (world : World)
      → Announced (respond_persisted_task w build calendar_id t world)
  unfolding respond_persisted_task
  persist_task-Announced calendar_id t =
      then-Announced Anything _ (run_repo _) (run_repo-Silent _)
        (λ row q. publish-Announced "tasks" "changed" calendar_id _ (λ w. (refl, refl)))

  by_writer :
      {A : Type 0} (calendar_id : String) (f : TaskWriter × Calendar → Handler A)
      → ((found : TaskWriter × Calendar)
          → MayWrite found
          → (world : World) → Proper (f found world))
      → (world : World) → Proper ((task_writer_for_calendar w build calendar_id >>= f) world)
  by_writer calendar_id f =
      then-Proper MayWrite f (task_writer_for_calendar w build calendar_id)
        (task_writer-Silent calendar_id)

  create_task_by-Proper :
      (t : Task) (found : TaskWriter × Calendar)
      → MayWrite found
      → (world : World) → Proper (create_task_by w build t found world)
  unfolding create_task_by
  create_task_by-Proper t (writer, c) h =
      call_provider-Proper "create task" c _ _ _ h (λ made. persist_task-Announced c.id made)

  update_task-Proper :
      (calendar_id : String) (t : Task) (world : World)
      → Proper (update_task w build calendar_id t world)
  unfolding update_task update_task_by
  update_task-Proper calendar_id t = by_writer calendar_id _ (λ found h.
      call_provider-Proper "update task" found.1 _ _ _ h
        (λ made. persist_task-Announced found.1.id made))

  delete_task_by-Proper :
      (row : TaskRow) (found : TaskWriter × Calendar)
      → MayWrite found
      → (world : World) → Proper (delete_task_by w build row found world)
  unfolding delete_task_by
  delete_task_by-Proper row (writer, c) h = call_provider-Proper "delete task" c _ _ _ h λ u.
      then-Announced Anything _ (run_repo _) (run_repo-Silent _)
        (λ n q. publish-Announced "tasks" "changed" row.calendar_id _ (λ w. (refl, refl)))

  if-Silent :
      {A : Type 0} (b : Bool) (m k : Handler A) (world : World)
      → Silent Anything (m world)
      → Silent Anything (k world)
      → Silent Anything ((if b then m else k) world)
  if-Silent true m k world p q = p
  if-Silent false m k world p q = q

  load_task-Silent :
      (p : Params) (world : World) → Silent Anything (load_task_calendar w build p world)
  unfolding load_task_calendar
  load_task-Silent p world =
      if-Silent (w.param_string p "id" == "") _ _ world (respond_with-Silent _ world) (
        then-Silent Anything _ Anything _ (run_repo-Silent _)
          (λ row q. respond_with-Silent (in_some_calendar w build row)) world)

  advances-Silent :
      (done : Bool) (calendar_id : String) (lib : Library) (utc : lib.Location) (now : ℤ)
      (world : World)
      → Silent Anything (done_and_advances w build lib utc now done calendar_id world)
  unfolding done_and_advances recurring_task_advances
  advances-Silent done calendar_id lib utc now world =
      if-Silent done _ _ world
        (then-Silent Anything _ Anything _ (try_repo-Silent _)
          (λ found q. respond_with-Silent (ok (advances found))) world)
        (respond_with-Silent _ world)

  pub task_create-Proper :
      (p : Params) (world : World) → Proper (handle_task_create w build p world)
  unfolding handle_task_create
  task_create-Proper p world =
      if-Proper (w.param_string p "calendarId" == "") _ _ world (refuse-Proper _ world) (
        then-Proper Anything _ _ (respond_with-Silent _)
          (λ t q. by_writer _ _ (create_task_by-Proper _)) world)

  pub task_update-Proper :
      (p : Params) (world : World) → Proper (handle_task_update w build p world)
  unfolding handle_task_update
  task_update-Proper p = then-Proper Anything _ _ (load_task-Silent p) (λ row q.
      then-Proper Anything _ _ (respond_with-Silent _)
        (λ t q'. update_task-Proper row.calendar_id t))

  pub task_complete-Proper :
      (lib : Library) (utc : lib.Location) (now : ℤ) (p : Params) (world : World)
      → Proper (handle_task_complete w build lib utc now p world)
  unfolding handle_task_complete
  task_complete-Proper lib utc now p = then-Proper Anything _ _ (load_task-Silent p) (λ row q.
      then-Proper Anything _ _ (λ world. advances-Silent _ row.calendar_id lib utc now world)
        (λ moves q'. update_task-Proper row.calendar_id _))

  pub task_delete-Proper :
      (p : Params) (world : World) → Proper (handle_task_delete w build p world)
  unfolding handle_task_delete
  task_delete-Proper p =
      then-Proper Anything _ _ (load_task-Silent p)
        (λ row q. by_writer row.calendar_id _ (delete_task_by-Proper row))
