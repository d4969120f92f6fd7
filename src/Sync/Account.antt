-- ===== src/Sync/Account.antt =====
-- core/internal/sync/engine.go: the loop of `syncAccount` over the calendars that the provider lists.
pub mod Total
use dankcalendar.Base.{
  ℤ, pos, ltb_ℤ, max_ℤ, String, Bool, true, false, List, [], ◌∷◌, Option, none, some, if◌then◌else◌,
}
use dankcalendar.Calendar.Types.{Calendar, SyncResult}
use dankcalendar.Calendar.Color.{normalize_color}
use dankcalendar.Repo.Store.{Error, Result, ok, err, CalendarRow, M, ◌>>=◌, pure, attempt}
use dankcalendar.Repo.Calendars.{UpsertCalendarInput, upsert_calendar}
use dankcalendar.Sync.Pages.{Synced, returned, awaiting, sync_calendar}
use dankcalendar.Sync.Schedule.{deferred_retry_after}

-- A calendar that `ListCalendars` returns, with the answers of `Sync` for it.
pub record Remote : Type 0 where
  pub calendar : Calendar
  pub answers : List (Result SyncResult)

-- The variables `retryAfter` and `calendarFailed`.
pub record Totals : Type 0 where
  pub retry_after : ℤ
  pub failed : Bool

unfoldable pub count_synced : Totals → Result Synced → Option Totals
count_synced t (ok (returned d topics)) =
    some (record t { retry_after = if ltb_ℤ t.retry_after d then d else t.retry_after })
count_synced t (ok awaiting) = none
count_synced t (err e) =
    some
      (record { retry_after = max_ℤ t.retry_after (deferred_retry_after (some e)); failed = true })

module _ (trim_space to_lower : String → String) (account_id : String) where
  unfoldable pub calendar_input : Calendar → UpsertCalendarInput
  calendar_input rc = record {
    id = "";
    account_id = account_id;
    remote_id = rc.remote_id;
    name = rc.name;
    description = rc.description;
    color = normalize_color trim_space to_lower rc.color;
    time_zone = rc.time_zone;
    read_only = rc.read_only;
    hidden = rc.hidden;
    sync_token = "";
    supported_components = rc.supported_components;
  }

  -- `none` says that an answer is awaited.
  unfoldable pub sync_stored : Remote → Totals → CalendarRow → M (Option Totals)
  sync_stored remote t stored =
      if stored.sync_disabled
      then pure (some t)
      else attempt (
          sync_calendar trim_space to_lower
            (record remote.calendar { id = stored.id; color = stored.color }) remote.answers)
        >>= λ synced. pure (count_synced t synced)

  unfoldable pub after_upsert : Remote → Totals → Result CalendarRow → M (Option Totals)
  after_upsert remote t (ok stored) = sync_stored remote t stored
  after_upsert remote t (err e) = pure (some t)

  unfoldable pub sync_remote : Remote → Totals → M (Option Totals)
  sync_remote remote t =
      attempt (upsert_calendar (calendar_input remote.calendar)) >>= after_upsert remote t

  unfoldable pub sync_calendars : List Remote → Totals → M (Option Totals)
  sync_calendars [] t = pure (some t)
  sync_calendars (remote ∷ rest) t = sync_remote remote t >>= λ counted. elim counted [
    | none ↦ pure none
    | some t' ↦ sync_calendars rest t'
  ]
