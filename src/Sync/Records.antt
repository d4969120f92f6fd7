-- ===== src/Sync/Records.antt =====
-- core/internal/sync/engine.go: what a synchronisation records of its account, which are the notices of
-- the provider and whether the user must sign in again.
pub mod Flags
pub mod Edges
use Prim.Native.String.append
use Prim.Native.String
use dankcalendar.Base.{
  String, Bool, true, false, not, ◌&&◌, List, [], ◌∷◌, ◌++◌, Option, none, some, ◌==◌, string_eq,
  if◌then◌else◌,
}
use dankcalendar.Repo.Store.{Error, Result, ok, err, AccountRow, M, ◌>>=◌, pure, attempt}
use dankcalendar.Repo.Accounts.{set_account_auth_state, set_account_sync_notice}
use dankcalendar.Sync.Schedule.{is_reauth}

-- What goes out: `publish` of a change of the account, and a call of `Send`.
pub data Announcement : Type 0 where
  publish_changed : (account_id : String) → Announcement
  send_reauth : (display_name : String) → Announcement

-- The copy of the row that the caller holds, after the call.
pub record Recorded : Type 0 where
  pub account : AccountRow
  pub effects : List Announcement

abbrev pub unchanged : AccountRow → Recorded
unchanged acc = record { account = acc; effects = [] }

-- What went out before comes first.
abbrev pub after_first : List Announcement → Recorded → Recorded
after_first before r = record r { effects = before ++ r.effects }

unfoldable pub same_flag : Bool → Bool → Bool
same_flag true b = b
same_flag false b = not b

-- `strings.Join` with a comma.
unfoldable pub join : List String → String
join [] = ""
join (s ∷ []) = s
join (s ∷ x ∷ rest) = String.◌++◌ s (String.◌++◌ "," (join (x ∷ rest)))

abbrev notice_calendar_sync_failed : String
notice_calendar_sync_failed = "calendar_sync_failed"

-- `codes` are what the provider reports, none where it is no `NoticeReporter`.
unfoldable pub notice_of : List String → Bool → String
notice_of codes calendar_failed =
    join (if calendar_failed then codes ++ (notice_calendar_sync_failed ∷ []) else codes)

unfoldable pub notice_recorded : AccountRow → String → Result AccountRow → Recorded
notice_recorded acc notice (err e) = unchanged acc
notice_recorded acc notice (ok row) = record {
  account = record acc { sync_notice = notice };
  effects = publish_changed acc.id ∷ [];
}

unfoldable pub record_sync_notice : AccountRow → List String → Bool → M Recorded
record_sync_notice acc codes calendar_failed =
    let notice = notice_of codes calendar_failed in
    if notice == acc.sync_notice
    then pure (unchanged acc)
    else attempt (set_account_sync_notice acc.id notice) >>= λ saved.
        pure (notice_recorded acc notice saved)

-- How `syncAccount` ends: early with an error, or after its loop over the calendars.
pub data Outcome : Type 0 where
  stopped : Error → Outcome
  finished : (codes : List String) (calendar_failed : Bool) → Outcome

-- `error_text` is `Error()`, and `has_sender` says whether there is a sender.
module _ (error_text : Error → String) (has_sender : Bool) where
  abbrev failure_text : Option Error → String
  failure_text none = ""
  failure_text (some e) = error_text e

  unfoldable pub auth_error_of : Option Error → String
  auth_error_of failure = if is_reauth failure then failure_text failure else ""

  unfoldable pub auth_recorded : AccountRow → Option Error → Result AccountRow → Recorded
  auth_recorded acc failure (err e) = unchanged acc
  auth_recorded acc failure (ok row) = record {
    account = record acc { needs_reauth = is_reauth failure; auth_error = auth_error_of failure };
    effects =
        publish_changed acc.id
        ∷ (if is_reauth failure && has_sender then send_reauth acc.display_name ∷ [] else []);
  }

  unfoldable pub record_auth_state : AccountRow → Option Error → M Recorded
  record_auth_state acc failure =
      if same_flag (is_reauth failure) acc.needs_reauth
      then pure (unchanged acc)
      else attempt (set_account_auth_state acc.id (is_reauth failure) (auth_error_of failure))
        >>= λ saved. pure (auth_recorded acc failure saved)

  -- What `SyncAccount` records: the end of `syncAccount`, and then the state of the authentication.
  unfoldable pub record_outcome : AccountRow → Outcome → M Recorded
  record_outcome acc (stopped e) = record_auth_state acc (some e)
  record_outcome acc (finished codes calendar_failed) =
      record_sync_notice acc codes calendar_failed >>= λ noted.
      record_auth_state noted.account none >>= λ r. pure (after_first noted.effects r)

  -- One synchronisation after the other.
  unfoldable pub record_outcomes : AccountRow → List Outcome → M Recorded
  record_outcomes acc [] = pure (unchanged acc)
  record_outcomes acc (o ∷ os) = record_outcome acc o >>= λ r.
      record_outcomes r.account os >>= λ rest. pure (after_first r.effects rest)
