-- ===== src/Tests/Accounts.antt =====
-- The transactions of core/repo and the accounts of core/internal/sync on small inputs.
use mathlib.Core.List.Memᴰ
use dankcalendar.Base.{
  map, List, string_eq, true, false, [], ◌∷◌, none, ◌≡◌, refl, sym, ap, inl, inr,
}
use dankcalendar.Calendar.Types.{google}
use dankcalendar.Repo.Store.{
  Error, wrapped, provider, Tables, World, quiet, broken, CalendarRow, AccountRow,
}
use dankcalendar.Repo.Calendars.{disable_sync}
use dankcalendar.Repo.Transactions.Whole.{Whole}
use dankcalendar.Repo.Accounts.{delete_calendar, set_calendar_sync_disabled, delete_account}
use dankcalendar.Repo.Accounts.Gone.{calendar_gone, account_gone, deletions_atomic}
use dankcalendar.Repo.Accounts.Linked.{Linked, deletions_keep_links}
use dankcalendar.Conv.Events.{event_upsert_input}
use dankcalendar.Repo.Events.{select, set_fields}
use dankcalendar.Repo.Post.{still}
use dankcalendar.Sync.Schedule.{cause, is_reauth}
use dankcalendar.Sync.Records.{Outcome, stopped, finished, record_outcomes}
use dankcalendar.Sync.Records.Edges.{record_outcomes-Settled}
use dankcalendar.Sync.Records.Flags.{Agrees, asks, risings, last_flag, last_notice, Settled}
use dankcalendar.Tests.Data.{tables}

abbrev pub account : AccountRow
account = record {
  id = "a1";
  kind = google;
  display_name = "A";
  settings = none;
  needs_reauth = false;
  auth_error = "";
  sync_notice = "";
}

abbrev pub calendar : CalendarRow
calendar = record {
  id = "c1";
  account_id = "a1";
  remote_id = "rc1";
  name = "Work";
  description = "";
  color = "";
  time_zone = "UTC";
  read_only = false;
  hidden = false;
  sync_disabled = false;
  sync_token = "";
  supported_components = [];
  name_override = none;
  reminder_overrides = none;
}

abbrev stored : Tables
stored = record tables { calendars = calendar ∷ []; accounts = account ∷ [] }

-- The third statement of a transaction fails.
abbrev world : World
world = record { tables = stored; incidents = quiet ∷ quiet ∷ quiet ∷ broken "disk full" ∷ [] }

deletions_atomic_example :
    Whole stored (calendar_gone "c1" stored) (delete_calendar "c1" world)
    × Whole stored (disable_sync "c1" stored) (set_calendar_sync_disabled "c1" true world)
    × Whole stored (account_gone "c1" stored) (delete_account "c1" world)
deletions_atomic_example = deletions_atomic "c1" world

linked : Linked stored
unfolding set_fields event_upsert_input
linked = record {
  of_event = λ r m. elim (Memᴰ.cases_cons m) [
    | inl e ↦ (calendar, Memᴰ.head refl, sym (ap (λ x. x.calendar_id) e))
    | inr n ↦ absurd (Memᴰ.not-nil n)
  ];
  of_task = λ r m. absurd (Memᴰ.not-nil m);
  of_calendar = λ c m. elim (Memᴰ.cases_cons m) [
    | inl e ↦ (account, Memᴰ.head refl, sym (ap (λ x. x.account_id) e))
    | inr n ↦ absurd (Memᴰ.not-nil n)
  ];
  of_secret = λ s m. absurd (Memᴰ.not-nil m);
}

deletions_keep_links_example :
    Linked (delete_calendar "c1" world).1.tables
    × Linked (set_calendar_sync_disabled "c1" true world).1.tables
    × Linked (delete_account "c1" world).1.tables
deletions_keep_links_example = deletions_keep_links "c1" world linked

abbrev revoked : Error
revoked = wrapped "list calendars" (
    provider (record { text = "invalid_grant"; locked = false; reauth = true; retry_after = none }))

-- The sign-in fails twice, works, and fails again.
abbrev outcomes : List Outcome
outcomes =
    stopped revoked ∷ stopped revoked ∷ finished ("items_skipped" ∷ []) true ∷ stopped revoked ∷ []

alone : Agrees account stored
unfolding select string_eq
alone = refl

record_outcomes-Settled_example :
    Settled
      (last_flag account.needs_reauth (map asks outcomes))
      (last_notice account.sync_notice outcomes)
      (risings account.needs_reauth (map asks outcomes))
      (record_outcomes (λ e. "sign in again") true account outcomes (still stored))
record_outcomes-Settled_example =
    record_outcomes-Settled (λ e. "sign in again") account outcomes stored alone

risings_twice : risings account.needs_reauth (map asks outcomes) ≡ 2
unfolding is_reauth cause
risings_twice = refl
