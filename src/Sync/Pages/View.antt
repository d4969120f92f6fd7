-- ===== src/Sync/Pages/View.antt =====
-- What a synchronisation of core/internal/sync/engine.go does to the stored events.
use dankcalendar.Base.{
  String, false, not, ◌&&◌, List, [], ◌∷◌, ◌≡◌, refl, subst, arith, string_eq, Option, none, some,
}
use dankcalendar.Calendar.Types.{
  Event, Task, EventChange, TaskChange, ChangeType, upsert, delete, other, SyncResult,
}
use dankcalendar.Repo.Store.{ok, EventRow, CalendarRow, Tables, M, ◌>>◌, only, pure}
use dankcalendar.Repo.Post.{
  Any, Triple, update-Triple, query-Triple, bind-Triple, wrap_error-Triple,
}
use dankcalendar.Repo.Events.{select, upsert_event}
use dankcalendar.Repo.Events.Rows.{
  Rows, HoldsRows, row_at, without_row, upsert_event-HoldsRows, delete_event_by_uid-HoldsRows,
}
use dankcalendar.Repo.Events.Keys.{Distinct}
use dankcalendar.Repo.Tasks.Frame.{delete_task_by_uid-Frames, upsert_task-Frames}
use dankcalendar.Repo.Calendars.{
  get_calendar, with_calendar_id, update_calendars, update_calendar, set_calendar_sync_token,
  set_calendar_color,
}
use dankcalendar.Conv.Events.{event_upsert_input}
use dankcalendar.Conv.Tasks.{task_upsert_input}
use dankcalendar.Sync.Pages.Written.{
  with_event, changed_by, changed, all_changed, with_upsert-with_event,
}
use dankcalendar.Sync.Pages.{applied, store_page, page_of, sync_page}
use dankcalendar.Sync.Changes.{
  apply_typed, apply_task_typed, apply_change, apply_changes, apply_task_change, apply_task_changes,
}

-- No calendar with the identifier has its sync switched off.
abbrev pub Enabled : String → List CalendarRow → Type 0
Enabled id cs = select (λ c. with_calendar_id id c && c.sync_disabled) cs ≡ []

Enabled-token :
    (id token : String) (cs : List CalendarRow)
    → Enabled id cs
    → Enabled id (
        update_calendars
          (λ c. with_calendar_id id c && not c.sync_disabled)
          (λ c. record c { sync_token = token })
          cs)
unfolding select update_calendars
Enabled-token id token [] h = refl
Enabled-token id token (c ∷ cs) h = ground (arith, Enabled-token id token cs)

Enabled-color :
    (id color : String) (cs : List CalendarRow)
    → Enabled id cs
    → Enabled id (update_calendars (with_calendar_id id) (λ c. record c { color = color }) cs)
unfolding select update_calendars
Enabled-color id color [] h = refl
Enabled-color id color (c ∷ cs) h = ground (arith, Enabled-color id color cs)

Enabled-only :
    (id : String) (cs : List CalendarRow) (c : CalendarRow)
    → Enabled id cs
    → only (select (with_calendar_id id) cs) ≡ ok c
    → c.sync_disabled ≡ false
unfolding select
Enabled-only id [] c h e = absurd (ground arith)
Enabled-only id (x ∷ cs) c h e = ground (arith, Enabled-only id cs c)

-- A step that leaves the rows as they are, or changes them, and whose result does not matter.
then-Triple :
    {A : Type 0} (P Q : Tables → Type 0) (m : M A)
    → Triple P m (λ a. Q) Any
    → Triple P (m >> pure tt) (λ a. Q) Any
then-Triple P Q m k = bind-Triple P (λ a. Q) Any (λ a. Q) m _ k (λ a w c h. (c, h))

abbrev pub Framed : String → Rows → List EventRow → List CalendarRow → Type 0
Framed cal v es cs = Enabled cal cs × Distinct es × ((c u : String) → row_at c u es ≡ v c u)

module _ (cal : String) where
  abbrev pub Sees : Rows → Tables → Type 0
  Sees = HoldsRows (Enabled cal)

  typed-Triple :
      (v : Rows) (type : ChangeType) (event : Option Event) (remote_id : String)
      → Triple
          (Sees v)
          (apply_typed cal type event remote_id)
          (λ a. Sees (changed_by cal type event remote_id v))
          Any
  unfolding apply_typed
  typed-Triple v upsert none remote_id w c h = (c, h)
  typed-Triple v upsert (some ev) remote_id w c h =
      then-Triple (Sees v) (Sees (with_event cal ev v)) _
        (wrap_error-Triple (Sees v) _ Any "upsert event" _ (
          subst
            (λ (k : Rows).
              Triple (Sees v) (upsert_event (event_upsert_input cal ev)) (λ r. Sees k) Any)
            (with_upsert-with_event cal ev v)
            (upsert_event-HoldsRows (Enabled cal) v (event_upsert_input cal ev))))
        w c h
  typed-Triple v delete event remote_id w c h =
      then-Triple (Sees v) (Sees (without_row cal remote_id v)) _
        (wrap_error-Triple (Sees v) _ Any "delete event" _
          (delete_event_by_uid-HoldsRows (Enabled cal) v cal remote_id))
        w c h
  typed-Triple v other event remote_id w c h = (c, h)

  changes-Triple :
      (v : Rows) (chs : List EventChange)
      → Triple (Sees v) (apply_changes cal chs) (λ a. Sees (all_changed cal chs v)) Any
  unfolding apply_changes apply_change
  changes-Triple v [] w c h = (c, h)
  changes-Triple v (ch ∷ chs) w c h =
      bind-Triple (Sees v) (λ a. Sees (changed cal ch v)) Any
        (λ a. Sees (all_changed cal (ch ∷ chs) v)) (apply_change cal ch) _
        (typed-Triple v ch.type ch.event ch.remote_id) (λ a. changes-Triple (changed cal ch v) chs)
        w c h

  module _ (v : Rows) where
    task_typed-Triple :
        (type : ChangeType) (task : Option Task) (remote_id : String)
        → Triple (Sees v) (apply_task_typed cal type task remote_id) (λ a. Sees v) Any
    unfolding apply_task_typed
    task_typed-Triple upsert none remote_id w c h = (c, h)
    task_typed-Triple upsert (some t) remote_id w c h =
        then-Triple (Sees v) (Sees v) _
          (wrap_error-Triple (Sees v) _ Any "upsert task" _
            (upsert_task-Frames (Framed cal v) (task_upsert_input cal t)))
          w c h
    task_typed-Triple delete task remote_id w c h =
        then-Triple (Sees v) (Sees v) _
          (wrap_error-Triple (Sees v) _ Any "delete task" _
            (delete_task_by_uid-Frames (Framed cal v) cal remote_id))
          w c h
    task_typed-Triple other task remote_id w c h = (c, h)

    task_changes-Triple :
        (chs : List TaskChange) → Triple (Sees v) (apply_task_changes cal chs) (λ a. Sees v) Any
    unfolding apply_task_changes apply_task_change
    task_changes-Triple [] w c h = (c, h)
    task_changes-Triple (ch ∷ chs) w c h =
        bind-Triple (Sees v) (λ a. Sees v) Any (λ a. Sees v) (apply_task_change cal ch) _
          (task_typed-Triple ch.type ch.task ch.remote_id) (λ a. task_changes-Triple chs) w c h

    token-Triple :
        (token : String) → Triple (Sees v) (set_calendar_sync_token cal token) (λ a. Sees v) Any
    unfolding set_calendar_sync_token
    token-Triple token =
        update-Triple (Sees v) (λ a. Sees v) Any _
          (λ t a h e. (Enabled-token cal token t.calendars h.0, h.1, h.2)) (λ t e h x. tt)
          (λ t text h. tt)

    pub color-Triple :
        (color : String) → Triple (Sees v) (set_calendar_color cal color) (λ a. Sees v) Any
    unfolding set_calendar_color update_calendar
    color-Triple color =
        update-Triple (Sees v) (λ a. Sees v) Any _
          (λ t a h e. (Enabled-color cal color t.calendars h.0, h.1, h.2)) (λ t e h x. tt)
          (λ t text h. tt)

    get-Triple :
        Triple (Sees v) (get_calendar cal) (λ c t. Sees v t × (c.sync_disabled ≡ false)) Any
    unfolding get_calendar
    get-Triple =
        query-Triple (Sees v) (λ c t. Sees v t × (c.sync_disabled ≡ false)) Any _
          (λ t c h e. (h, Enabled-only cal t.calendars c h.0 e)) (λ t e h. tt)

  store_page-Triple :
      (v : Rows) (r : SyncResult)
      → Triple (Sees v) (store_page cal r) (λ a. Sees (all_changed cal r.changes v)) Any
  unfolding store_page
  store_page-Triple v r =
      let v' = all_changed cal r.changes v in
      bind-Triple (Sees v) (λ a. Sees v') Any (λ a. Sees v') (apply_changes cal r.changes) _
        (changes-Triple v r.changes)
        λ a.
          bind-Triple (Sees v') (λ a. Sees v') Any (λ a. Sees v')
            (apply_task_changes cal r.task_changes) _ (task_changes-Triple v' r.task_changes)
            (λ b.
              wrap_error-Triple (Sees v') (λ a. Sees v') Any "persist sync token" _
                (token-Triple v' r.cursor.token))

  -- A page of an enabled calendar is applied.
  pub sync_page-Triple :
      (v : Rows) (r : SyncResult)
      → Triple
          (Sees v)
          (sync_page cal r)
          (λ step t. Sees (all_changed cal r.changes v) t × (step ≡ applied))
          Any
  unfolding sync_page page_of
  sync_page-Triple v r =
      bind-Triple (Sees v) (λ c t. Sees v t × (c.sync_disabled ≡ false)) Any _ (get_calendar cal) _
        (get-Triple v)
        λ s w c h. rw h.1 (
          bind-Triple (Sees v) (λ a. Sees (all_changed cal r.changes v)) Any
            (λ step t. Sees (all_changed cal r.changes v) t × (step ≡ applied)) (store_page cal r)
            (λ a. pure applied) (store_page-Triple v r) (λ a w c h. (c, (h, refl))) w c h.0)
