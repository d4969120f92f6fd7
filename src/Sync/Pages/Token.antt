-- ===== src/Sync/Pages/Token.antt =====
-- What a page that is not applied leaves behind: core/internal/sync/engine.go stores the token after
-- the changes, and applies nothing to a calendar that is switched off.
use dankcalendar.Base.{
  String, Bool, true, false, List, [], ◌∷◌, Option, none, some, ◌≡◌, ◌≢◌, refl, arith, string_eq,
  if◌then◌else◌,
}
use dankcalendar.Calendar.Types.{
  Event, Task, EventChange, TaskChange, ChangeType, upsert, delete, other, SyncResult,
}
use dankcalendar.Repo.Store.{
  Error, Result, ok, err, TaskRow, CalendarRow, Tables, Incident, quiet, broken, meanwhile, World,
  M, statement, ◌>>=◌, ◌>>◌, continue, wrapping, query, update, only, wrap_error, pure,
}
use dankcalendar.Repo.Keeps.{Keeps, Sound, query-Keeps, update-Keeps, bind-Keeps, wrap_error-Keeps}
use dankcalendar.Repo.Events.{insert_event, delete_where, delete_event_by_uid, select}
use dankcalendar.Repo.Events.Rules.{upsert_event-rule}
use dankcalendar.Repo.Tasks.{insert_task, delete_tasks_where, delete_task_by_uid}
use dankcalendar.Repo.Tasks.Rules.{upsert_task-rule}
use dankcalendar.Repo.Calendars.{
  get_calendar, set_calendar_sync_token, with_calendar_id, update_calendars, disable_sync,
}
use dankcalendar.Conv.Events.{event_upsert_input}
use dankcalendar.Conv.Tasks.{task_upsert_input}
use dankcalendar.Sync.Pages.{applied, store_page, page_of, sync_page}
use dankcalendar.Sync.Changes.{
  apply_typed, apply_task_typed, apply_change, apply_changes, apply_task_change, apply_task_changes,
}

module _ (cs : List CalendarRow) where
  -- The calendars are those of before.
  abbrev Same : Tables → Type 0
  Same t = t.calendars ≡ cs

  then-Keeps :
      {A : Type 0} (text : String) (m : M A)
      → Keeps Same m
      → Keeps Same (wrap_error text m >> pure tt)
  then-Keeps text m k =
      bind-Keeps Same (wrap_error text m) _ (wrap_error-Keeps Same text m k) (λ a w s. s)

  insert_event-Same : (r : _) (t : Tables) → Same t → Same (insert_event r t).1
  unfolding insert_event
  insert_event-Same r t h = ground arith

  insert_task-Same : (r : TaskRow) (t : Tables) → Same t → Same (insert_task r t).1
  unfolding insert_task
  insert_task-Same r t h = ground arith

  typed-Same :
      (cal : String) (type : ChangeType) (event : Option Event) (remote_id : String)
      → Keeps Same (apply_typed cal type event remote_id)
  unfolding apply_typed delete_event_by_uid delete_where
  typed-Same cal upsert none remote_id = λ w s. s
  typed-Same cal upsert (some ev) remote_id = then-Keeps "upsert event" _ (
      upsert_event-rule Same (event_upsert_input cal ev) (λ id t h. h)
        (λ id t h. insert_event-Same _ t h) (λ t h. h))
  typed-Same cal delete event remote_id =
      then-Keeps "delete event" _ (update-Keeps Same _ (λ t h. h))
  typed-Same cal other event remote_id = λ w s. s

  changes-Same : (cal : String) (chs : List EventChange) → Keeps Same (apply_changes cal chs)
  unfolding apply_changes apply_change
  changes-Same cal [] = λ w s. s
  changes-Same cal (ch ∷ chs) =
      bind-Keeps Same (apply_change cal ch) _ (typed-Same cal ch.type ch.event ch.remote_id)
        (λ a. changes-Same cal chs)

  task_typed-Same :
      (cal : String) (type : ChangeType) (task : Option Task) (remote_id : String)
      → Keeps Same (apply_task_typed cal type task remote_id)
  unfolding apply_task_typed delete_task_by_uid delete_tasks_where
  task_typed-Same cal upsert none remote_id = λ w s. s
  task_typed-Same cal upsert (some t) remote_id = then-Keeps "upsert task" _ (
      upsert_task-rule Same (task_upsert_input cal t) (λ id t h. h)
        (λ id t h. insert_task-Same _ t h) (λ t h. h))
  task_typed-Same cal delete task remote_id =
      then-Keeps "delete task" _ (update-Keeps Same _ (λ t h. h))
  task_typed-Same cal other task remote_id = λ w s. s

  task_changes-Same :
      (cal : String) (chs : List TaskChange) → Keeps Same (apply_task_changes cal chs)
  unfolding apply_task_changes apply_task_change
  task_changes-Same cal [] = λ w s. s
  task_changes-Same cal (ch ∷ chs) =
      bind-Keeps Same (apply_task_change cal ch) _
        (task_typed-Same cal ch.type ch.task ch.remote_id) (λ a. task_changes-Same cal chs)

  -- A chain that fails leaves the calendars.
  abbrev FailsClean : {A : Type 0} → M A → Type 0
  FailsClean m =
      (w : World) (e : Error) → Sound Same w → (m w).0 ≡ err e → (m w).1.tables.calendars ≡ cs

  continue-FailsClean :
      {A B : Type 0} (f : A → M B) (p : Result A × World) (e : Error)
      → Sound Same p.1
      → ((a : A) → FailsClean (f a))
      → (continue f p).0 ≡ err e
      → (continue f p).1.tables.calendars ≡ cs
  continue-FailsClean f (ok a, w) e s k h = k a w e s h
  continue-FailsClean f (err x, w) e s k h = s.holds

  wrapping-err :
      {A : Type 0} (text : String) (p : Result A × World) (e : Error)
      → ((x : Error) → p.0 ≡ err x → p.1.tables.calendars ≡ cs)
      → (wrapping text p).0 ≡ err e
      → (wrapping text p).1.tables.calendars ≡ cs
  wrapping-err text (ok a, w) e k h = absurd (ground arith)
  wrapping-err text (err x, w) e k h = k x refl

  wrapping-FailsClean :
      {A : Type 0} (text : String) (m : M A) → FailsClean m → FailsClean (wrap_error text m)
  wrapping-FailsClean text m k w e s h = wrapping-err text (m w) e (λ x y. k w x s y) h

  -- A write that returns no error of its own fails only where the database does.
  statement-clean :
      (f : Tables → Tables) (is : List Incident) (t : Tables) (e : Error)
      → t.calendars ≡ cs
      → (statement {A = Unit {0}} (λ t. (ok tt, f t)) is t).0 ≡ err e
      → (statement {A = Unit {0}} (λ t. (ok tt, f t)) is t).1.tables.calendars ≡ cs
  statement-clean f [] t e c h = absurd (ground arith)
  statement-clean f (quiet ∷ rest) t e c h = absurd (ground arith)
  statement-clean f (broken text ∷ rest) t e c h = c
  statement-clean f (meanwhile g ∷ rest) t e c h = absurd (ground arith)

  token-FailsClean : (cal token : String) → FailsClean (set_calendar_sync_token cal token)
  unfolding set_calendar_sync_token update
  token-FailsClean cal token w e s h = statement-clean _ w.incidents w.tables e s.holds h

  bind-FailsClean :
      {A B : Type 0} (m : M A) (f : A → M B)
      → Keeps Same m
      → ((a : A) → FailsClean (f a))
      → FailsClean (m >>= f)
  bind-FailsClean m f k h w e s = continue-FailsClean f (m w) e (k w s) h

  store_page-FailsClean : (cal : String) (r : SyncResult) → FailsClean (store_page cal r)
  unfolding store_page
  store_page-FailsClean cal r =
      bind-FailsClean (apply_changes cal r.changes) _ (changes-Same cal r.changes) λ a.
        bind-FailsClean (apply_task_changes cal r.task_changes) _
          (task_changes-Same cal r.task_changes)
          (λ b. wrapping-FailsClean "persist sync token" _ (token-FailsClean cal r.cursor.token))

  continue-pure :
      {A B : Type 0} (b : B) (p : Result A × World) (e : Error)
      → ((x : Error) → p.0 ≡ err x → p.1.tables.calendars ≡ cs)
      → (continue (λ a. pure b) p).0 ≡ err e
      → (continue (λ a. pure b) p).1.tables.calendars ≡ cs
  continue-pure b (ok a, w) e k h = absurd (ground arith)
  continue-pure b (err x, w) e k h = k x refl

  choose-FailsClean :
      {A : Type 0} (b : Bool) (x y : M A)
      → FailsClean x
      → FailsClean y
      → FailsClean (if b then x else y)
  choose-FailsClean true x y h k = h
  choose-FailsClean false x y h k = k

  page_of-FailsClean :
      (cal : String) (r : SyncResult) (row : CalendarRow) → FailsClean (page_of cal r row)
  unfolding page_of
  page_of-FailsClean cal r row =
      choose-FailsClean row.sync_disabled _ _ (λ w e s h. absurd (ground arith))
        (λ w e s h.
          continue-pure applied (store_page cal r w) e (λ x y. store_page-FailsClean cal r w x s y)
            h)

  get_calendar-Same : (cal : String) → Keeps Same (get_calendar cal)
  unfolding get_calendar
  get_calendar-Same cal = query-Keeps Same _

-- If a page fails, whatever statement it is that fails, then the calendars are those of before: the
-- sync token is not stored unless all changes of its page are, so the next run asks for the page
-- again. Other processes are taken to leave the calendars alone meanwhile.
pub failed_page_keeps_token :
    (cs : List CalendarRow) (cal : String) (r : SyncResult) (w : World) (e : Error)
    → Sound (Same cs) w
    → (sync_page cal r w).0 ≡ err e
    → (sync_page cal r w).1.tables.calendars ≡ cs
unfolding sync_page
failed_page_keeps_token cs cal r w e s h =
    bind-FailsClean cs (get_calendar cal) (page_of cal r) (get_calendar-Same cs cal)
      (page_of-FailsClean cs cal r) w e s h

-- No row with the identifier is enabled after the calendar is switched off.
disabled-only :
    (id : String) (cs : List CalendarRow) (c : CalendarRow)
    → only (
        select (with_calendar_id id) (
          update_calendars
            (with_calendar_id id)
            (λ (c : CalendarRow). record c { sync_disabled = true; sync_token = "" })
            cs))
      ≡ ok c
    → c.sync_disabled ≡ true
unfolding select update_calendars
disabled-only id [] c e = absurd (ground arith)
disabled-only id (x ∷ cs) c e = ground (arith, disabled-only id cs c)

continue-page :
    (cal : String) (r : SyncResult) (found : Result CalendarRow) (w : World)
    → ((c : CalendarRow) → found ≡ ok c → c.sync_disabled ≡ true)
    → ((continue (page_of cal r) (found, w)).0 ≢ ok applied)
      × ((continue (page_of cal r) (found, w)).1.tables ≡ w.tables)
unfolding page_of
continue-page cal r (ok c) w h = rw (h c refl) (ground arith, refl)
continue-page cal r (err e) w h = (λ p. absurd (ground arith), refl)

-- If the user switches a calendar's sync off while a page of it is fetched, then nothing of the page is
-- applied: the tables are those that switching off has left, without events and tasks of the calendar,
-- and the loop does not go on.
pub switched_off_meanwhile :
    (cal : String) (r : SyncResult) (t : Tables) (rest : List Incident)
    → let w : World = record { tables = t; incidents = meanwhile (disable_sync cal) ∷ rest } in
      ((sync_page cal r w).0 ≢ ok applied) × ((sync_page cal r w).1.tables ≡ disable_sync cal t)
unfolding sync_page get_calendar query disable_sync
switched_off_meanwhile cal r t rest =
    continue-page cal r _ (record { tables = disable_sync cal t; incidents = rest })
      (λ c e. disabled-only cal t.calendars c e)
