-- ===== src/Tests/Mirror.antt =====
-- Google's listings of events and of calendars, on small inputs.
use dankcalendar.Base.{
  String, Bool, List, [], ◌∷◌, true, false, ◌≡◌, ◌≢◌, refl, string_eq, nat_eq, pos,
}
use dankcalendar.Calendar.Types.{SyncResult, holds_events}
use dankcalendar.Google.Quota.Errors.{Err, api, as_api}
use dankcalendar.Google.Calendars.{
  CalendarEntry, items, failure, is_service_disabled, is_optional_service_unavailable,
  list_event_calendars, list_task_lists, list_calendars,
}
use dankcalendar.Google.Calendars.Degrades.{Degrades, list_calendars-Degrades}
use dankcalendar.Google.Events.Pages as Pages
use dankcalendar.Repo.Store.{ok}
use dankcalendar.Repo.Post.{Post, Any, still}
use dankcalendar.Repo.Events.{select}
use dankcalendar.Repo.Events.Rows.{Rows, HoldsRows, row_at}
use dankcalendar.Google.Events.Pages.{Answer, page, synced, sync_events, upsert_of}
use dankcalendar.Sync.Pages.{awaiting, sync_calendar}
use dankcalendar.Sync.Pages.View.{Enabled}
use dankcalendar.Sync.Pages.Listed.{mirrored}
use dankcalendar.Sync.Pages.Mirror.{listed_items, google_snapshot_mirrored}
use dankcalendar.Tests.Data.{tables}
use dankcalendar.Tests.GoogleEvents.{env, calendar, cursor, expired, holiday}

-- A second page has an event that was deleted.
abbrev relisted : List (Answer env)
relisted =
    page (record { items = holiday ∷ []; next_page_token = "p2"; next_sync_token = "" })
    ∷ page (record {
      items = record holiday { id = "g2"; status = "cancelled" } ∷ [];
      next_page_token = "";
      next_sync_token = "new";
    })
    ∷ []

abbrev result : SyncResult
result = record {
  cursor = record { calendar_id = "c1"; token = "new" };
  changes = upsert_of env calendar holiday ∷ [];
  task_changes = [];
  more = false;
  full_snapshot = true;
  series_touched = [];
  retry_after = pos 0;
  color = "";
}

abbrev before : Rows
before c u = row_at c u tables.events

abbrev same_text : String → String
same_text s = s

listed : sync_events env (λ e. e) calendar cursor expired relisted ≡ synced result
unfolding sync_events Pages.after_pages Pages.sync_pages string_eq Pages.is_gone as_api nat_eq
    Pages.full_listing Pages.changes_of
listed = refl

google_snapshot_mirrored_example :
    Post
      (λ s t.
        HoldsRows
          (Enabled "c1")
          (mirrored env calendar (listed_items env cursor expired relisted) before)
          t
        × (s ≢ awaiting))
      Any
      (sync_calendar same_text same_text calendar (ok result ∷ []) (still tables))
unfolding select string_eq holds_events
google_snapshot_mirrored_example =
    google_snapshot_mirrored env (λ e. e) same_text same_text calendar cursor expired relisted
      before result refl listed refl (still tables) tt (refl, (refl, tt), λ c u. refl)

-- Google Tasks is out of its quota.
abbrev busy : Err
busy = api (record { code = 429; reasons = []; retry_after = ""; message = "" })

abbrev work : CalendarEntry
work = record {
  id = "rc1";
  summary = "Work";
  description = "";
  background_color = "";
  time_zone = "UTC";
  access_role = "reader";
}

abbrev never : String → String → Bool
never s t = false

list_calendars-Degrades_example :
    Degrades
      (is_service_disabled never)
      (is_optional_service_unavailable never same_text)
      (list_event_calendars "a1" (items (work ∷ [])))
      (list_task_lists (λ e. e) "a1" (failure busy))
      (list_calendars never same_text (λ e. e) (λ e e'. e) "a1" (items (work ∷ [])) (failure busy))
list_calendars-Degrades_example =
    list_calendars-Degrades never same_text (λ e. e) (λ e e'. e) "a1" (items (work ∷ []))
      (failure busy)
