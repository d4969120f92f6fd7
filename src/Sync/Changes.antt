-- ===== src/Sync/Changes.antt =====
-- core/internal/sync/engine.go: applying the changes of a page, and pruning after a snapshot.
use dankcalendar.Base.{ℕ, String, Bool, List, [], ◌∷◌, Option, none, some, string_eq, if◌then◌else◌}
use dankcalendar.Calendar.Types.{
  Event, Task, EventChange, TaskChange, ChangeType, upsert, delete, other, holds_events,
  holds_tasks,
}
use dankcalendar.Repo.Store.{M, ◌>>=◌, ◌>>◌, pure, wrap_error}
use dankcalendar.Repo.Events.{upsert_event, delete_event_by_uid, delete_events_not_in_uids}
use dankcalendar.Repo.Tasks.{upsert_task, delete_task_by_uid, delete_tasks_not_in_uids}
use dankcalendar.Conv.Events.{event_upsert_input}
use dankcalendar.Conv.Tasks.{task_upsert_input}

-- The body of the loop of `applyChanges`, by the type of the change.
unfoldable pub apply_typed : String → ChangeType → Option Event → String → M (Unit {0})
apply_typed calendar_id upsert none remote_id = pure tt
apply_typed calendar_id upsert (some ev) remote_id =
    wrap_error "upsert event" (upsert_event (event_upsert_input calendar_id ev)) >> pure tt
apply_typed calendar_id delete event remote_id =
    wrap_error "delete event" (delete_event_by_uid calendar_id remote_id) >> pure tt
apply_typed calendar_id other event remote_id = pure tt

unfoldable pub apply_change : String → EventChange → M (Unit {0})
unfolding apply_typed
apply_change calendar_id ch = apply_typed calendar_id ch.type ch.event ch.remote_id

unfoldable pub apply_changes : String → List EventChange → M (Unit {0})
apply_changes calendar_id [] = pure tt
apply_changes calendar_id (ch ∷ chs) = apply_change calendar_id ch >> apply_changes calendar_id chs

unfoldable pub apply_task_typed : String → ChangeType → Option Task → String → M (Unit {0})
apply_task_typed calendar_id upsert none remote_id = pure tt
apply_task_typed calendar_id upsert (some t) remote_id =
    wrap_error "upsert task" (upsert_task (task_upsert_input calendar_id t)) >> pure tt
apply_task_typed calendar_id delete task remote_id =
    wrap_error "delete task" (delete_task_by_uid calendar_id remote_id) >> pure tt
apply_task_typed calendar_id other task remote_id = pure tt

unfoldable pub apply_task_change : String → TaskChange → M (Unit {0})
unfolding apply_task_typed
apply_task_change calendar_id ch = apply_task_typed calendar_id ch.type ch.task ch.remote_id

unfoldable pub apply_task_changes : String → List TaskChange → M (Unit {0})
apply_task_changes calendar_id [] = pure tt
apply_task_changes calendar_id (ch ∷ chs) =
    apply_task_change calendar_id ch >> apply_task_changes calendar_id chs

pub record PrunedCounts : Type 0 where
  pub events : ℕ
  pub tasks : ℕ

abbrev pub when : Bool → M ℕ → M ℕ
when b m = if b then m else pure 0

unfoldable pub prune_snapshot : String → List String → List String → List String → M PrunedCounts
prune_snapshot calendar_id components event_uids task_uids = do
  n ←
      when (holds_events components)
        (wrap_error "prune events" (delete_events_not_in_uids calendar_id event_uids))
  k ←
      when (holds_tasks components)
        (wrap_error "prune tasks" (delete_tasks_not_in_uids calendar_id task_uids))
  pure (record { events = n; tasks = k })
