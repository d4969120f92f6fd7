-- ===== src/Repo/Tasks/Frame.antt =====
-- What core/repo/tasks_mutations.go leaves alone: the events and the calendars.
use dankcalendar.Base.{String, Bool, List, arith, ◌==◌, string_eq, inl, inr, Bool-cases}
use dankcalendar.Repo.Store.{
  Error, Result, ok, err, EventRow, TaskRow, CalendarRow, Tables, M, attempt,
}
use dankcalendar.Repo.Post.{
  Either, Any, Triple, update-Triple, query-Triple, attempt-Triple, bind-Triple,
}
use dankcalendar.Repo.Events.{is_constraint, is_not_found, choose_id}
use dankcalendar.Repo.Tasks.{
  UpsertTaskInput, find_task_by_uid, apply_task_update, insert_task, settle_found_task, settle_task,
  create_task, after_find_task, upsert_task, delete_tasks_where, delete_task_by_uid,
  delete_tasks_not_in_uids,
}

module _ (G : List EventRow → List CalendarRow → Type 0) where
  abbrev pub Frame : Tables → Type 0
  Frame t = G t.events t.calendars

  -- Every statement here keeps the frame, whatever it returns.
  abbrev Frames : {A : Type 0} → M A → Type 0
  Frames m = Triple Frame m (λ r. Frame) Any

  insert_task-Frame : (r : TaskRow) (t : Tables) → Frame t → Frame (insert_task r t).1
  unfolding insert_task
  insert_task-Frame r t h = ground arith

  delete-Frames : (p : TaskRow → Bool) → Frames (delete_tasks_where p)
  unfolding delete_tasks_where
  delete-Frames p =
      update-Triple Frame (λ r. Frame) Any _ (λ t a h e. h) (λ t e h x. tt) (λ t text h. tt)

  pub delete_task_by_uid-Frames : (c u : String) → Frames (delete_task_by_uid c u)
  unfolding delete_task_by_uid
  delete_task_by_uid-Frames c u = delete-Frames _

  pub delete_tasks_not_in_uids-Frames :
      (c : String) (uids : List String) → Frames (delete_tasks_not_in_uids c uids)
  unfolding delete_tasks_not_in_uids
  delete_tasks_not_in_uids-Frames c uids = delete-Frames _

  apply-Frames : (id : String) (input : UpsertTaskInput) → Frames (apply_task_update id input)
  unfolding apply_task_update
  apply-Frames id input =
      update-Triple Frame (λ r. Frame) Any _ (λ t a h e. h) (λ t e h x. tt) (λ t text h. tt)

  module _ (input : UpsertTaskInput) where
    find-Triple :
        Triple Frame
          (attempt (find_task_by_uid input.calendar_id input.uid))
          (Either (λ r. Frame) (λ e. Frame))
          Any
    unfolding find_task_by_uid
    find-Triple =
        attempt-Triple Frame (λ r. Frame) (λ e. Frame) Any _
          (query-Triple Frame (λ r. Frame) (λ e. Frame) _ (λ t r h e. h) (λ t e h. h))

    choose_id-Frames : Frames (choose_id input.id)
    unfolding choose_id
    choose_id-Frames w c h = elim (Bool-cases (input.id == "")) [
      | inl e ↦ rw e (c, h)
      | inr e ↦ rw e (c, h)
    ]

    settle_found-Triple :
        (e : Error) (found : Result TaskRow)
        → Triple
            (Either (λ r. Frame) (λ e. Frame) found)
            (settle_found_task input e found)
            (λ r. Frame)
            Any
    unfolding settle_found_task
    settle_found-Triple e (ok r) w c h = apply-Frames r.id input w c h
    settle_found-Triple e (err e') w c h = (c, tt)

    settle-Triple :
        (made : Result TaskRow)
        → Triple (Either (λ r. Frame) (λ e. Frame) made) (settle_task input made) (λ r. Frame) Any
    unfolding settle_task
    settle-Triple (ok r) w c h = (c, h)
    settle-Triple (err e) w c h = elim (Bool-cases (is_constraint e)) [
      | inl k ↦ rw k (
          bind-Triple Frame (Either (λ r. Frame) (λ e. Frame)) Any (λ r. Frame)
            (attempt (find_task_by_uid input.calendar_id input.uid)) (settle_found_task input e)
            find-Triple (settle_found-Triple e) w c h)
      | inr k ↦ rw k (c, tt)
    ]

    create-Frames : Frames (create_task input)
    unfolding create_task
    create-Frames =
        bind-Triple Frame (λ id. Frame) Any (λ r. Frame) (choose_id input.id) _ choose_id-Frames
          λ id.
            bind-Triple Frame (Either (λ r. Frame) (λ e. Frame)) Any (λ r. Frame) (attempt _)
              (settle_task input)
              (attempt-Triple Frame (λ r. Frame) (λ e. Frame) Any _
                (update-Triple Frame (λ r. Frame) (λ e. Frame) _
                  (λ t r h e. insert_task-Frame _ t h) (λ t e h x. insert_task-Frame _ t h)
                  (λ t text h. h)))
              settle-Triple

    after_find-Triple :
        (found : Result TaskRow)
        → Triple
            (Either (λ r. Frame) (λ e. Frame) found)
            (after_find_task input found)
            (λ r. Frame)
            Any
    unfolding after_find_task
    after_find-Triple (ok r) w c h = apply-Frames r.id input w c h
    after_find-Triple (err e) w c h = elim (Bool-cases (is_not_found e)) [
      | inl k ↦ rw k (create-Frames w c h)
      | inr k ↦ rw k (c, tt)
    ]

    pub upsert_task-Frames : Frames (upsert_task input)
    unfolding upsert_task
    upsert_task-Frames =
        bind-Triple Frame (Either (λ r. Frame) (λ e. Frame)) Any (λ r. Frame)
          (attempt (find_task_by_uid input.calendar_id input.uid)) (after_find_task input)
          find-Triple after_find-Triple
