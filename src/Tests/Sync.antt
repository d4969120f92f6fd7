-- ===== src/Tests/Sync.antt =====
-- The synchronisation of core/internal/sync/engine.go on small inputs.
use dankcalendar.Base.{
  pos, ◌+ℤ◌, ◌-ℤ◌, ◌≤ℤ◌, max_ℤ, String, Bool, true, false, List, [], ◌∷◌, map, none, some, ◌≡◌, ◌≢◌,
  ap, ◌==◌, ◌⊎◌, inl, inr, refl, string_eq, lookup, put,
}
use dankcalendar.Calendar.Types.{Calendar, SyncResult, upsert, holds_events}
use dankcalendar.Repo.Store.{ok, err, not_found, CalendarRow, World, quiet}
use dankcalendar.Repo.Post.{Post, Any}
use dankcalendar.Repo.Events.{select}
use dankcalendar.Repo.Events.Rows.{Rows, HoldsRows, row_at, only_listed}
use dankcalendar.Sync.Pages.{awaiting, sync_calendar}
use dankcalendar.Sync.Pages.View.{Enabled}
use dankcalendar.Sync.Pages.Written.{all_changed, sent_uids}
use dankcalendar.Sync.Pages.Snapshot.{last_page, next_page, changes_of, snapshot_sync}
use dankcalendar.Sync.Pages.Ends.{sync_calendar_ends}
use dankcalendar.Sync.Schedule.{
  Engine, min_interval, max_wake, deferred_retry_after, is_locked, until_next, due, schedule,
  chosen_interval, base_interval, record_keyring_locked, after_sync,
}
use dankcalendar.Sync.Schedule.Wakes.{any_due, until_next_wakes, after_sync_defers}
use dankcalendar.Repo.Store.{database, broken, meanwhile, query}
use dankcalendar.Repo.Calendars.{get_calendar, disable_sync}
use dankcalendar.Sync.Pages.{sync_page, applied}
use dankcalendar.Sync.Pages.Token.{failed_page_keeps_token, switched_off_meanwhile}
use dankcalendar.Sync.Account.{Remote, Totals, sync_calendars}
use dankcalendar.Sync.Account.Total.{CountsOn, sync_calendars_total}
use dankcalendar.Tests.Data.{meeting, tables}

abbrev same_text : String → String
same_text s = s

abbrev calendar : Calendar
calendar = record {
  id = "c1";
  account_id = "a1";
  remote_id = "rc1";
  name = "Work";
  description = "";
  color = "";
  time_zone = "UTC";
  read_only = false;
  hidden = false;
  sync_token = "";
  supported_components = [];
}

abbrev calendar_row : CalendarRow
calendar_row = record {
  id = "c1";
  account_id = "a1";
  remote_id = "rc1";
  name = "Work";
  description = "";
  color = "";
  time_zone = "UTC";
  read_only = false;
  hidden = false;
  sync_disabled = false;
  sync_token = "";
  supported_components = [];
  name_override = none;
  reminder_overrides = none;
}

abbrev page : Bool → String → SyncResult
page more uid = record {
  cursor = record { calendar_id = "c1"; token = "t" };
  changes =
      record { type = upsert; event = some (record meeting { uid = uid }); remote_id = "" } ∷ [];
  task_changes = [];
  more = more;
  full_snapshot = true;
  series_touched = [];
  retry_after = pos 0;
  color = "";
}

abbrev pages : List SyncResult
pages = page true "u2" ∷ page false "u3" ∷ []

abbrev start : World
start = record { tables = record tables { calendars = calendar_row ∷ [] }; incidents = quiet ∷ [] }

abbrev before : Rows
before c u = row_at c u tables.events

-- The first statement of the page fails.
abbrev broken_start : World
broken_start = record { tables = start.tables; incidents = broken "disk full" ∷ [] }

page_fails : (sync_page "c1" (page false "u2") broken_start).0 ≡ err (database "disk full")
unfolding sync_page get_calendar query
page_fails = refl

snapshot_sync_example :
    Post
      (λ s t.
        HoldsRows
          (Enabled "c1")
          (only_listed "c1"
            (sent_uids (changes_of pages))
            (all_changed "c1" (changes_of pages) before))
          t
        × (s ≢ awaiting))
      Any
      (sync_calendar same_text same_text calendar (map ok pages) start)
unfolding select string_eq holds_events
snapshot_sync_example =
    snapshot_sync same_text same_text calendar before pages refl
      (next_page (page true "u2") (page false "u3" ∷ []) refl refl
        (last_page (page false "u3") refl refl))
      start tt (refl, (refl, tt), λ c u. refl)

sync_calendar_ends_example :
    (sync_calendar same_text same_text calendar (ok (page true "u2") ∷ err not_found ∷ []) start).0
    ≢ ok awaiting
sync_calendar_ends_example =
    sync_calendar_ends same_text same_text calendar (ok (page true "u2") ∷ err not_found ∷ [])
      (inr tt) start

abbrev engine : Engine
engine = record {
  interval = pos 300000000000;
  interval_fn = none;
  next_due = ("a1", pos 5000) ∷ ("a2", pos 9000) ∷ [];
  keyring_locked = [];
}

until_next_wakes_example :
    (pos 0 ≤ℤ until_next (pos 1000) engine)
    × (until_next (pos 1000) engine ≤ℤ max_wake)
    × (until_next (pos 1000) engine ≤ℤ max_ℤ (pos 0) (pos 9000 -ℤ pos 1000))
    × ((until_next (pos 1000) engine ≡ max_wake)
        ⊎ (any_due (pos 1000 +ℤ until_next (pos 1000) engine) engine.next_due ≡ true))
unfolding lookup string_eq
until_next_wakes_example = until_next_wakes (pos 1000) engine "a2" (pos 9000) refl

abbrev synced : Engine
synced = after_sync (pos 6000) "a1" (pos 120000000000) none engine

due_again : due (pos 400000000000) "a1" synced ≡ true
unfolding due after_sync schedule put lookup deferred_retry_after is_locked chosen_interval
    base_interval record_keyring_locked string_eq ◌+ℤ◌
due_again = refl

others : ◌≢◌ {A = String} "a2" "a1"
unfolding string_eq
others e = let p : false ≡ true = ap (λ s. s == "a1") e in absurd (cc)

after_sync_defers_example :
    (pos 6000 +ℤ min_interval ≤ℤ pos 400000000000)
    × (((is_locked none ≡ true) × (lookup "a1" synced.next_due ≡ some (pos 6000 +ℤ min_interval)))
        ⊎ ((pos 6000 +ℤ pos 120000000000 ≤ℤ pos 400000000000)
            × (pos 6000 +ℤ deferred_retry_after none ≤ℤ pos 400000000000)))
    × (lookup "a2" synced.next_due ≡ lookup "a2" engine.next_due)
after_sync_defers_example =
    after_sync_defers (pos 6000) "a1" (pos 120000000000) none engine (pos 400000000000) "a2"
      due_again others

failed_page_keeps_token_example :
    (sync_page "c1" (page false "u2") broken_start).1.tables.calendars ≡ calendar_row ∷ []
failed_page_keeps_token_example =
    failed_page_keeps_token (calendar_row ∷ []) "c1" (page false "u2") broken_start
      (database "disk full") (record { holds = refl; safe = (tt, tt) }) page_fails

switched_off_meanwhile_example :
    ((sync_page "c1" (page false "u2") (record {
      tables = start.tables;
      incidents = meanwhile (disable_sync "c1") ∷ quiet ∷ [];
    })).0
      ≢ ok applied)
    × ((sync_page "c1" (page false "u2") (record {
      tables = start.tables;
      incidents = meanwhile (disable_sync "c1") ∷ quiet ∷ [];
    })).1.tables
        ≡ disable_sync "c1" start.tables)
switched_off_meanwhile_example =
    switched_off_meanwhile "c1" (page false "u2") start.tables (quiet ∷ [])

abbrev remotes : List Remote
remotes =
    record { calendar = calendar; answers = err not_found ∷ [] }
    ∷ record { calendar = record calendar { remote_id = "rc2" }; answers = map ok pages }
    ∷ []

abbrev none_yet : Totals
none_yet = record { retry_after = pos 0; failed = false }

sync_calendars_total_example :
    CountsOn none_yet (sync_calendars same_text same_text "a1" remotes none_yet start).0
sync_calendars_total_example =
    sync_calendars_total same_text same_text "a1" remotes none_yet start (tt, (inr (inl refl), tt))
