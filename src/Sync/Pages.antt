-- ===== src/Sync/Pages.antt =====
-- core/internal/sync/engine.go: the synchronisation of one calendar, page by page.
pub mod Written
pub mod View
pub mod Snapshot
pub mod Listed
pub mod Mirror
pub mod Ends
pub mod Token
use dankcalendar.Base.{
  ℤ, pos, ltb_ℤ, ℕ, suc, ◌+◌, ltb, String, Bool, true, false, ◌||◌, List, [], ◌∷◌, ◌++◌, Option,
  none, some, ◌==◌, contains, string_eq, if◌then◌else◌,
}
use dankcalendar.Calendar.Types.{
  Calendar, Event, Task, EventChange, TaskChange, ChangeType, upsert, delete, other, SyncResult,
  SyncCursor, holds_events, holds_tasks,
}
use dankcalendar.Calendar.Color.{normalize_color}
use dankcalendar.Repo.Store.{
  ProviderError, Error, provider, Result, ok, err, CalendarRow, Tables, World, M, ◌>>=◌, ◌>>◌, pure,
  raise, wrap_error,
}
use dankcalendar.Repo.Events.{
  upsert_event, delete_event_by_uid, delete_events_not_in_uids, delete_events_in_series_not_in_uids,
}
use dankcalendar.Repo.Tasks.{upsert_task, delete_task_by_uid, delete_tasks_not_in_uids}
use dankcalendar.Repo.Calendars.{get_calendar, set_calendar_sync_token, set_calendar_color}
use dankcalendar.Conv.Events.{event_upsert_input}
use dankcalendar.Conv.Tasks.{task_upsert_input}
use dankcalendar.Sync.Changes.{
  apply_typed, apply_change, apply_changes, apply_task_typed, apply_task_change, apply_task_changes,
  PrunedCounts, when, prune_snapshot,
}

-- The uids of the events that a page upserts, and of those that belong to a series.
unfoldable pub upserted_uids : List EventChange → List String
upserted_uids [] = []
upserted_uids (ch ∷ chs) =
    let rest = upserted_uids chs in
    elim ch.type [
      | upsert ↦ elim ch.event [ none ↦ rest | some ev ↦ ev.uid ∷ rest ]
      | delete ↦ rest
      | other ↦ rest
    ]

unfoldable pub upserted_task_uids : List TaskChange → List String
upserted_task_uids [] = []
upserted_task_uids (ch ∷ chs) =
    let rest = upserted_task_uids chs in
    elim ch.type [
      | upsert ↦ elim ch.task [ none ↦ rest | some t ↦ t.uid ∷ rest ]
      | delete ↦ rest
      | other ↦ rest
    ]

-- `seriesUIDs`, as the list of its (series, uid) entries.
unfoldable pub series_entries : List EventChange → List (String × String)
series_entries [] = []
series_entries (ch ∷ chs) =
    let rest = series_entries chs in
    elim ch.type [
      | upsert ↦ elim ch.event [
        | none ↦ rest
        | some ev ↦ if ev.recurring_id == "" then rest else (ev.recurring_id, ev.uid) ∷ rest
      ]
      | delete ↦ rest
      | other ↦ rest
    ]

unfoldable pub uids_of_series : String → List (String × String) → List String
uids_of_series id [] = []
uids_of_series id ((series, uid) ∷ rest) =
    let uids = uids_of_series id rest in if series == id then uid ∷ uids else uids

unfoldable pub count_changes {ℓ} : {A : Type ℓ} → List A → ℕ
count_changes [] = 0
count_changes (c ∷ cs) = suc (count_changes cs)

-- The variables of `syncCalendar` across its loop.
pub record Progress : Type 0 where
  pub snapshot : Bool
  pub event_uids : List String
  pub task_uids : List String
  pub changed_events : ℕ
  pub changed_tasks : ℕ
  pub retry_after : ℤ
  pub color : String
  pub touched_series : List String
  pub series_uids : List (String × String)

abbrev pub no_progress : Progress
no_progress = record {
  snapshot = false;
  event_uids = [];
  task_uids = [];
  changed_events = 0;
  changed_tasks = 0;
  retry_after = pos 0;
  color = "";
  touched_series = [];
  series_uids = [];
}

-- Adding to the set `touchedSeries`.
unfoldable pub add_series : List String → List String → List String
add_series known [] = known
add_series known (id ∷ ids) =
    add_series (if contains known id then known else known ++ (id ∷ [])) ids

-- The bookkeeping of one page.
unfoldable pub record_page : SyncResult → Progress → Progress
record_page r p = record {
  snapshot = if r.full_snapshot then true else p.snapshot;
  event_uids = if r.full_snapshot then p.event_uids ++ upserted_uids r.changes else p.event_uids;
  task_uids =
      if r.full_snapshot then p.task_uids ++ upserted_task_uids r.task_changes else p.task_uids;
  changed_events = p.changed_events + count_changes r.changes;
  changed_tasks = p.changed_tasks + count_changes r.task_changes;
  retry_after = r.retry_after;
  color = if r.color == "" then p.color else r.color;
  touched_series = add_series p.touched_series r.series_touched;
  series_uids = p.series_uids ++ series_entries r.changes;
}

-- The loop over `touchedSeries`, whose order Go leaves open; here it is that of the first touch.
unfoldable pub reconcile_series : String → List String → List (String × String) → M ℕ
reconcile_series calendar_id [] entries = pure 0
reconcile_series calendar_id (id ∷ ids) entries = do
  n ←
      wrap_error "reconcile series"
        (delete_events_in_series_not_in_uids calendar_id id (uids_of_series id entries))
  k ← reconcile_series calendar_id ids entries
  pure (n + k)

unfoldable pub reconcile : Calendar → Progress → M PrunedCounts
reconcile cal p =
    if p.snapshot
    then prune_snapshot cal.id cal.supported_components p.event_uids p.task_uids
    else reconcile_series cal.id p.touched_series p.series_uids >>= λ n.
        pure (record { events = n; tasks = 0 })

-- The topics of `publish`.
pub data Topic : Type 0 where
  calendars events tasks : Topic

unfoldable pub publish_if : Bool → Topic → List Topic
publish_if true t = t ∷ []
publish_if false t = []

pub data Step : Type 0 where
  applied stopped : Step

-- One page: nothing is applied to a calendar whose sync was switched off during the fetch, and the
-- token is stored after the changes.
unfoldable pub store_page : String → SyncResult → M (Unit {0})
store_page calendar_id r =
    apply_changes calendar_id r.changes
    >> (apply_task_changes calendar_id r.task_changes
        >> wrap_error "persist sync token" (set_calendar_sync_token calendar_id r.cursor.token))

unfoldable pub page_of : String → SyncResult → CalendarRow → M Step
page_of calendar_id r stored =
    if stored.sync_disabled then pure stopped else store_page calendar_id r >> pure applied

unfoldable pub sync_page : String → SyncResult → M Step
sync_page calendar_id r = get_calendar calendar_id >>= page_of calendar_id r

-- `syncCalendar` returns a delay and has published topics, or awaits the next answer.
pub data Synced : Type 0 where
  returned : ℤ → List Topic → Synced
  awaiting : Synced

module _ (trim_space to_lower : String → String) where
  -- A colour that is new is stored and published.
  unfoldable pub repaint : Calendar → String → M (List Topic)
  repaint cal color =
      let c = normalize_color trim_space to_lower color in
      if c == "" || c == cal.color
      then pure []
      else wrap_error "persist calendar color" (set_calendar_color cal.id c)
        >> pure (calendars ∷ [])

  -- After the last page.
  unfoldable pub finish : Calendar → Progress → M Synced
  finish cal p = do
    pruned ← reconcile cal p
    painted ← repaint cal p.color
    pure (
        returned p.retry_after (
          painted
          ++ (publish_if (ltb 0 (p.changed_events + pruned.events)) events
              ++ publish_if (ltb 0 (p.changed_tasks + pruned.tasks)) tasks)))

  -- The loop of `syncCalendar` over the answers of `provider.Sync`.
  unfoldable pub sync_pages : Calendar → List (Result SyncResult) → Progress → M Synced
  sync_pages cal [] p = pure awaiting
  sync_pages cal (err e ∷ rest) p = raise e
  sync_pages cal (ok r ∷ rest) p =
      let p' = record_page r p in
      let more = sync_pages cal rest p' in
      sync_page cal.id r >>= λ step. elim step [
        | stopped ↦ pure (returned r.retry_after [])
        | applied ↦ if r.more then more else finish cal p'
      ]

  unfoldable pub sync_calendar : Calendar → List (Result SyncResult) → M Synced
  sync_calendar cal answers = sync_pages cal answers no_progress
