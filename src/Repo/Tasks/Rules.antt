-- ===== src/Repo/Tasks/Rules.antt =====
-- A rule for `UpsertTask` and the deletions of core/repo/tasks_mutations.go: what their writes keep,
-- they keep.
use dankcalendar.Base.{String, suc, inl, inr, Bool-cases, ◌==◌, string_eq}
use dankcalendar.Repo.Store.{Error, Result, ok, err, TaskRow, Tables, attempt}
use dankcalendar.Repo.Keeps.{Keeps, query-Keeps, update-Keeps, bind-Keeps}
use dankcalendar.Repo.Events.{choose_id, is_constraint, is_not_found}
use dankcalendar.Repo.Tasks.{
  UpsertTaskInput, set_task_fields, blank_task, find_task_by_uid, update_task_rows,
  apply_task_update, insert_task, settle_found_task, settle_task, create_task, after_find_task,
  upsert_task,
}

module _ {ℓ} (P : Tables → Type ℓ) (input : UpsertTaskInput)
    (updates : (id : String) (t : Tables)
      → P t
      → P (record t { tasks = update_task_rows id (set_task_fields input) t.tasks }))
    (inserts : (id : String) (t : Tables)
      → P t
      → P (insert_task (set_task_fields input (blank_task id input.calendar_id input.uid)) t).1)
    (draws : (t : Tables) → P t → P (record t { drawn = suc t.drawn })) where
  apply-Keeps : (id : String) → Keeps P (apply_task_update id input)
  unfolding apply_task_update
  apply-Keeps id = update-Keeps P _ (updates id)

  find-Keeps : Keeps P (find_task_by_uid input.calendar_id input.uid)
  unfolding find_task_by_uid
  find-Keeps = query-Keeps P _

  choose_id-Keeps : Keeps P (choose_id input.id)
  unfolding choose_id
  choose_id-Keeps w s = elim (Bool-cases (input.id == "")) [
    | inl e ↦ rw e (record { holds = draws w.tables s.holds; safe = s.safe })
    | inr e ↦ rw e s
  ]

  settle_found_task-Keeps :
      (e : Error) (found : Result TaskRow) → Keeps P (settle_found_task input e found)
  unfolding settle_found_task
  settle_found_task-Keeps e (ok r) = apply-Keeps r.id
  settle_found_task-Keeps e (err e') = λ w s. s

  settle_task-Keeps : (made : Result TaskRow) → Keeps P (settle_task input made)
  unfolding settle_task
  settle_task-Keeps (ok r) w s = s
  settle_task-Keeps (err e) w s = elim (Bool-cases (is_constraint e)) [
    | inl c ↦ rw c (
        bind-Keeps P (attempt (find_task_by_uid input.calendar_id input.uid))
          (settle_found_task input e) find-Keeps (settle_found_task-Keeps e) w s)
    | inr c ↦ rw c s
  ]

  create_task-Keeps : Keeps P (create_task input)
  unfolding create_task
  create_task-Keeps = bind-Keeps P (choose_id input.id) _ choose_id-Keeps λ id.
      bind-Keeps P (attempt _) (settle_task input) (update-Keeps P _ (inserts id)) settle_task-Keeps

  after_find_task-Keeps : (found : Result TaskRow) → Keeps P (after_find_task input found)
  unfolding after_find_task
  after_find_task-Keeps (ok r) w s = apply-Keeps r.id w s
  after_find_task-Keeps (err e) w s = elim (Bool-cases (is_not_found e)) [
    | inl c ↦ rw c (create_task-Keeps w s)
    | inr c ↦ rw c s
  ]

  pub upsert_task-rule : Keeps P (upsert_task input)
  unfolding upsert_task
  upsert_task-rule =
      bind-Keeps P (attempt (find_task_by_uid input.calendar_id input.uid)) (after_find_task input)
        find-Keeps after_find_task-Keeps
