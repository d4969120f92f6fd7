-- ===== src/Sync/Pages/Snapshot.antt =====
-- What `syncCalendar` of core/internal/sync/engine.go makes of a snapshot that comes in pages.
use dankcalendar.Base.{
  String, Bool, true, false, ◌||◌, List, [], ◌∷◌, ◌++◌, ++-nil, ++-assoc, map, ◌≡◌, ◌≢◌, refl, sym,
  subst, arith, ◌==◌, string_eq, if◌then◌else◌, inl, inr, Bool-cases,
}
use dankcalendar.Calendar.Types.{Calendar, EventChange, SyncResult, holds_events, holds_tasks}
use dankcalendar.Calendar.Color.{normalize_color}
use dankcalendar.Repo.Store.{ok, Tables, World, M, wrap_error, pure}
use dankcalendar.Repo.Post.{Post, Calm, Any, Triple, bind-Triple, wrap_error-Triple}
use dankcalendar.Repo.Events.Rows.{
  Rows, HoldsRows, only_listed, delete_events_not_in_uids-HoldsRows,
}
use dankcalendar.Repo.Tasks.Frame.{delete_tasks_not_in_uids-Frames}
use dankcalendar.Repo.Tasks.{delete_tasks_not_in_uids}
use dankcalendar.Sync.Pages.{
  upserted_uids, Progress, no_progress, record_page, reconcile, applied, sync_page, Synced,
  awaiting, repaint, finish, sync_pages, sync_calendar,
}
use dankcalendar.Sync.Changes.{prune_snapshot}
use dankcalendar.Sync.Pages.Written.{all_changed, sent_uids, upserted_uids-sent_uids}
use dankcalendar.Sync.Pages.View.{Enabled, Framed, Sees, sync_page-Triple, color-Triple}

-- The pages of a full snapshot: each but the last announces another.
pub data FullSnapshot : List SyncResult → Type 0 where
  last_page : (r : SyncResult) → r.full_snapshot ≡ true → r.more ≡ false → FullSnapshot (r ∷ [])
  next_page :
      (r : SyncResult) (rs : List SyncResult)
      → r.full_snapshot ≡ true
      → r.more ≡ true
      → FullSnapshot rs
      → FullSnapshot (r ∷ rs)

abbrev pub changes_of : List SyncResult → List EventChange
changes_of [] = []
changes_of (r ∷ rs) = r.changes ++ changes_of rs

all_changed-++ :
    (cal : String) (xs ys : List EventChange) (v : Rows)
    → all_changed cal (xs ++ ys) v ≡ all_changed cal ys (all_changed cal xs v)
all_changed-++ cal [] ys v = refl
all_changed-++ cal (x ∷ xs) ys v = all_changed-++ cal xs ys _

upserted_uids-++ :
    (xs ys : List EventChange) → upserted_uids (xs ++ ys) ≡ upserted_uids xs ++ upserted_uids ys
unfolding upserted_uids
upserted_uids-++ [] ys = refl
upserted_uids-++ (x ∷ xs) ys = ground (arith, upserted_uids-++ xs ys)

module _ (Q : Synced → Tables → Type 0) where
  choose_yes :
      (b : Bool) (x y : M Synced) (w : World)
      → b ≡ true
      → Post Q Any (x w)
      → Post Q Any ((if b then x else y) w)
  choose_yes true x y w e h = h
  choose_yes false x y w e h = absurd (ground arith)

  choose_no :
      (b : Bool) (x y : M Synced) (w : World)
      → b ≡ false
      → Post Q Any (y w)
      → Post Q Any ((if b then x else y) w)
  choose_no true x y w e h = absurd (ground arith)
  choose_no false x y w e h = h

recorded_uids :
    (r : SyncResult) (p : Progress)
    → r.full_snapshot ≡ true
    → (record_page r p).event_uids ≡ p.event_uids ++ upserted_uids r.changes
unfolding record_page
recorded_uids r p full = rw full refl

recorded_snapshot :
    (r : SyncResult) (p : Progress) → r.full_snapshot ≡ true → (record_page r p).snapshot ≡ true
unfolding record_page
recorded_snapshot r p full = rw full refl

module _ (trim_space to_lower : String → String) (cal : Calendar)
    (events_kept : holds_events cal.supported_components ≡ true) where
  abbrev Ends : Rows → Synced → Tables → Type 0
  Ends v s t = Sees cal.id v t × (s ≢ awaiting)

  tasks-Triple :
      (v : Rows) (task_uids : List String)
      → Triple
          (Sees cal.id v)
          (if holds_tasks cal.supported_components
            then wrap_error "prune tasks" (delete_tasks_not_in_uids cal.id task_uids)
            else pure 0)
          (λ n. Sees cal.id v)
          Any
  tasks-Triple v task_uids w c h = elim (Bool-cases (holds_tasks cal.supported_components)) [
    | inl k ↦ rw k (
        wrap_error-Triple (Sees cal.id v) (λ n. Sees cal.id v) Any "prune tasks" _
          (delete_tasks_not_in_uids-Frames (Framed cal.id v) cal.id task_uids) w c h)
    | inr k ↦ rw k (c, h)
  ]

  prune-Triple :
      (v : Rows) (event_uids task_uids : List String)
      → Triple
          (Sees cal.id v)
          (prune_snapshot cal.id cal.supported_components event_uids task_uids)
          (λ n. Sees cal.id (only_listed cal.id event_uids v))
          Any
  unfolding prune_snapshot
  prune-Triple v event_uids task_uids =
      let v' = only_listed cal.id event_uids v in
      rw events_kept (
        bind-Triple (Sees cal.id v) (λ n. Sees cal.id v') Any (λ n. Sees cal.id v') _ _
          (wrap_error-Triple (Sees cal.id v) _ Any "prune events" _
            (delete_events_not_in_uids-HoldsRows (Enabled cal.id) v cal.id event_uids))
          λ n.
            bind-Triple (Sees cal.id v') (λ k. Sees cal.id v') Any (λ n. Sees cal.id v') _ _
              (tasks-Triple v' task_uids) (λ k w c h. (c, h)))

  repaint-Triple :
      (v : Rows) (color : String)
      → Triple (Sees cal.id v) (repaint trim_space to_lower cal color) (λ t. Sees cal.id v) Any
  unfolding repaint
  repaint-Triple v color w c h =
      let code = normalize_color trim_space to_lower color in
      elim (Bool-cases (code == "" || code == cal.color)) [
        | inl k ↦ rw k (c, h)
        | inr k ↦ rw k (
            bind-Triple (Sees cal.id v) (λ a. Sees cal.id v) Any (λ t. Sees cal.id v) _ _
              (wrap_error-Triple (Sees cal.id v) _ Any _ _ (color-Triple cal.id v code))
              (λ a w c h. (c, h)) w c h)
      ]

  finish-Triple :
      (v : Rows) (p : Progress)
      → p.snapshot ≡ true
      → Triple
          (Sees cal.id v)
          (finish trim_space to_lower cal p)
          (Ends (only_listed cal.id p.event_uids v))
          Any
  unfolding finish reconcile
  finish-Triple v p snapshot =
      let v' = only_listed cal.id p.event_uids v in
      rw snapshot (
        bind-Triple (Sees cal.id v) (λ n. Sees cal.id v') Any (Ends v') _ _
          (prune-Triple v p.event_uids p.task_uids)
          λ n.
            bind-Triple (Sees cal.id v') (λ t. Sees cal.id v') Any (Ends v') _ _
              (repaint-Triple v' p.color) (λ t w c h. (c, (h, λ e. absurd (ground arith)))))

  -- The stored rows after the pages of a run, with what the earlier pages sent.
  abbrev final : List String → List EventChange → Rows → Rows
  final earlier chs v = only_listed cal.id (earlier ++ upserted_uids chs) (all_changed cal.id chs v)

  final-++ :
      (earlier : List String) (xs ys : List EventChange) (v : Rows)
      → final earlier (xs ++ ys) v
        ≡ final (earlier ++ upserted_uids xs) ys (all_changed cal.id xs v)
  final-++ earlier xs ys v =
      rw
        (
          upserted_uids-++ xs ys,
          all_changed-++ cal.id xs ys v,
          ++-assoc earlier (upserted_uids xs) (upserted_uids ys),
        )
        refl

  pages-Triple :
      (v : Rows) (p : Progress) (rs : List SyncResult)
      → FullSnapshot rs
      → Triple
          (Sees cal.id v)
          (sync_pages trim_space to_lower cal (map ok rs) p)
          (Ends (final p.event_uids (changes_of rs) v))
          Any
  unfolding sync_pages
  pages-Triple v p rs (last_page r full stop) =
      let v' = all_changed cal.id r.changes v in
      rw (++-nil r.changes) (
        bind-Triple (Sees cal.id v) (λ step t. Sees cal.id v' t × (step ≡ applied)) Any
          (Ends (final p.event_uids r.changes v)) (sync_page cal.id r) _
          (sync_page-Triple cal.id v r)
          λ step w c h.
            rw (h.1, sym (recorded_uids r p full))
              (choose_no _ r.more _ _ w stop
                (finish-Triple v' (record_page r p) (recorded_snapshot r p full) w c h.0)))
  pages-Triple v p rs (next_page r rest full more more_pages) =
      let v' = all_changed cal.id r.changes v in
      rw (final-++ p.event_uids r.changes (changes_of rest) v) (
        bind-Triple (Sees cal.id v) (λ step t. Sees cal.id v' t × (step ≡ applied)) Any
          (Ends (final (p.event_uids ++ upserted_uids r.changes) (changes_of rest) v'))
          (sync_page cal.id r) _ (sync_page-Triple cal.id v r)
          λ step w c h.
            rw (h.1, sym (recorded_uids r p full))
              (choose_yes _ r.more _ _ w more
                (pages-Triple v' (record_page r p) rest more_pages w c h.0)))

-- Take a calendar that holds events, the pages of a full snapshot of it, and a database whose events have
-- unique keys and that no other process changes meanwhile. If `sync_calendar` returns no error, then it
-- has not stopped between pages, the calendar's sync is still enabled, the keys are unique, and the rows
-- of the events, but for their identifiers, are those from before with the changes of all pages made in
-- order, less those of this calendar that no page upserted. An upserted event leaves the row of
-- `row_of`: the fields of the event, the JSON columns and the original start staying as they were where
-- the event has none; a deletion leaves no row. No other row is touched, in this calendar or another.
pub snapshot_sync :
    (trim_space to_lower : String → String) (cal : Calendar) (v : Rows) (rs : List SyncResult)
    → holds_events cal.supported_components ≡ true
    → FullSnapshot rs
    → (w : World) → Calm w.incidents
    → HoldsRows (Enabled cal.id) v w.tables
    → Post
        (λ s t.
          HoldsRows
            (Enabled cal.id)
            (only_listed cal.id (sent_uids (changes_of rs)) (all_changed cal.id (changes_of rs) v))
            t
          × (s ≢ awaiting))
        Any
        (sync_calendar trim_space to_lower cal (map ok rs) w)
unfolding sync_calendar
snapshot_sync trim_space to_lower cal v rs events_kept pages =
    subst
      (λ uids.
        Triple (HoldsRows (Enabled cal.id) v)
          (sync_pages trim_space to_lower cal (map ok rs) no_progress)
          (λ s t.
            HoldsRows (Enabled cal.id)
              (only_listed cal.id uids (all_changed cal.id (changes_of rs) v)) t
            × (s ≢ awaiting))
          Any)
      (upserted_uids-sent_uids (changes_of rs))
      (pages-Triple trim_space to_lower cal events_kept v no_progress rs pages)
