-- ===== src/Google/Events/Pages.antt =====
-- core/internal/providers/google/provider.go: the listing of changes, page by page.
use dankcalendar.Base.{
  pos, ℕ, String, Bool, false, not, ◌||◌, List, [], ◌∷◌, ◌++◌, Option, none, some, ◌==◌, string_eq,
  nat_eq, if◌then◌else◌,
}
use dankcalendar.Calendar.Types.{Calendar, SyncCursor, upsert, delete, EventChange, SyncResult}
use dankcalendar.Google.Quota.Errors.{Err, wrapped, ApiError, as_api}
use dankcalendar.Google.Events.{Env, GoogleEvent, from_google_event}

module _ (env : Env) where
  abbrev pub upsert_of : Calendar → GoogleEvent → EventChange
  upsert_of c item = record {
    type = upsert;
    event = some (from_google_event env c item);
    remote_id = "";
  }

  -- The loop over the items of a page.
  unfoldable pub changes_of : Calendar → String → List GoogleEvent → List EventChange
  changes_of c sync_token [] = []
  changes_of c sync_token (item ∷ items) =
      let rest = changes_of c sync_token items in
      if not (item.status == "cancelled")
      then upsert_of c item ∷ rest
      else if not (item.recurring_event_id == "")
      then upsert_of c item ∷ rest
      else if not (sync_token == "")
      then record { type = delete; event = none; remote_id = item.id } ∷ rest
      else rest

  -- `calendar.Events`
  pub record Page : Type 0 where
    pub items : List GoogleEvent
    pub next_page_token : String
    pub next_sync_token : String

  -- An answer to the call for a page.
  pub data Answer : Type 0 where
    page : Page → Answer
    failure : Err → Answer

  pub data Fetched : Type 0 where
    fetched : List EventChange → String → Fetched
    failed : Err → Fetched
    awaiting : Fetched

  -- The loop of `syncPages` over the answers.
  unfoldable pub sync_pages : Calendar → String → List EventChange → List Answer → Fetched
  sync_pages c sync_token changes [] = awaiting
  sync_pages c sync_token changes (failure e ∷ answers) = failed (wrapped "sync google events" e)
  sync_pages c sync_token changes (page p ∷ answers) =
      let all = changes ++ changes_of c sync_token p.items in
      let rest = sync_pages c sync_token all answers in
      if p.next_page_token == "" then fetched all p.next_sync_token else rest

  pub data Synced : Type 0 where
    synced : SyncResult → Synced
    refused : Err → Synced
    unanswered : Synced

  abbrev has_code : ℕ → Option ApiError → Bool
  has_code code none = false
  has_code code (some e) = e.code == code

  -- A token that has expired: `http.StatusGone`.
  unfoldable pub is_gone : Err → Bool
  is_gone e = has_code 410 (as_api e)

  abbrev result_of : String → String → List EventChange → String → SyncResult
  result_of calendar_id token changes next_token = record {
    cursor = record { calendar_id = calendar_id; token = next_token };
    changes = changes;
    task_changes = [];
    more = false;
    full_snapshot = token == "";
    series_touched = [];
    retry_after = pos 0;
    color = "";
  }

  -- `classify` is `classifyAuthErr`.
  module _ (classify : Err → Err) where
    unfoldable pub full_listing : String → Fetched → Synced
    full_listing calendar_id (fetched changes next_token) =
        synced (result_of calendar_id "" changes next_token)
    full_listing calendar_id (failed e) = refused (classify e)
    full_listing calendar_id awaiting = unanswered

    unfoldable pub after_pages : Calendar → SyncCursor → List Answer → Fetched → Synced
    after_pages c cursor again (fetched changes next_token) =
        synced (result_of cursor.calendar_id cursor.token changes next_token)
    after_pages c cursor again (failed e) =
        if cursor.token == "" || not (is_gone e)
        then refused (classify e)
        else full_listing cursor.calendar_id (sync_pages c "" [] again)
    after_pages c cursor again awaiting = unanswered

    -- `syncEvents`, with the answers to the first listing and to the full one after it.
    unfoldable pub sync_events : Calendar → SyncCursor → List Answer → List Answer → Synced
    sync_events c cursor answers again =
        after_pages c cursor again (sync_pages c cursor.token [] answers)
