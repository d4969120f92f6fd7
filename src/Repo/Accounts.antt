-- ===== src/Repo/Accounts.antt =====
-- core/repo/accounts_mutations.go, and the mutations of core/repo/calendars_mutations.go that delete
-- rows or that the user makes. A deletion of calendars takes their events and tasks along, by the
-- cascades of core/ent/schema/calendar.go, and one of accounts its calendars and secrets.
pub mod Gone
pub mod Linked
use dankcalendar.Base.{
  ℤ, String, Bool, true, false, not, ◌&&◌, ◌||◌, List, [], ◌∷◌, Option, none, some, ◌==◌, string_eq,
  if◌then◌else◌,
}
use dankcalendar.Calendar.Json.{JsonMap}
use dankcalendar.Calendar.Types.{AccountKind}
use dankcalendar.Settings.{ReminderOverride, is_empty_override}
use dankcalendar.Repo.Store.{
  Error, constraint, Result, ok, err, EventRow, TaskRow, CalendarRow, AccountRow, SecretRow, Tables,
  M, ◌>>=◌, ◌>>◌, pure, update, query, only, wrap_error,
}
use dankcalendar.Repo.Events.{select, delete_where, in_calendar}
use dankcalendar.Repo.Tasks.{delete_tasks_where}
use dankcalendar.Repo.Calendars.{update_calendar, with_calendar_id}
use dankcalendar.Repo.Transactions.{with_tx}

-- `HasCalendarWith(p)`, of a row with this calendar.
unfoldable pub some_calendar : (CalendarRow → Bool) → List CalendarRow → String → Bool
some_calendar p [] id = false
some_calendar p (c ∷ cs) id = (c.id == id && p c) || some_calendar p cs id

abbrev pub of_account : String → CalendarRow → Bool
of_account id c = c.account_id == id

unfoldable pub without_calendars : (CalendarRow → Bool) → Tables → Tables
without_calendars p t = record t {
  events = select (λ (r : EventRow). not (some_calendar p t.calendars r.calendar_id)) t.events;
  tasks = select (λ (r : TaskRow). not (some_calendar p t.calendars r.calendar_id)) t.tasks;
  calendars = select (λ c. not (p c)) t.calendars;
}

unfoldable pub delete_calendars_where : (CalendarRow → Bool) → M (Unit {0})
delete_calendars_where p = update λ t. (ok tt, without_calendars p t)

-- `DeleteCalendar`
unfoldable pub delete_calendar : String → M (Unit {0})
delete_calendar id = with_tx (
    delete_where (in_calendar id)
    >> (delete_tasks_where (λ (r : TaskRow). r.calendar_id == id)
        >> delete_calendars_where (with_calendar_id id)))

-- `SetCalendarSyncDisabled`
unfoldable pub set_calendar_sync_disabled : String → Bool → M (Unit {0})
set_calendar_sync_disabled id disabled =
    if disabled
    then with_tx (
        delete_where (in_calendar id)
        >> (delete_tasks_where (λ (r : TaskRow). r.calendar_id == id)
            >> (update_calendar id (λ c. record c { sync_disabled = true; sync_token = "" })
                >> pure tt)))
    else update_calendar id (λ c. record c { sync_disabled = false; sync_token = "" }) >> pure tt

unfoldable pub set_calendar_hidden : String → Bool → M CalendarRow
set_calendar_hidden id hidden = update_calendar id (λ c. record c { hidden = hidden })

unfoldable pub set_calendar_name_override : String → String → M CalendarRow
set_calendar_name_override id name =
    update_calendar id (λ c. record c { name_override = if name == "" then none else some name })

unfoldable pub set_calendar_reminders : String → Option ReminderOverride → M CalendarRow
set_calendar_reminders id o =
    update_calendar id
      (λ c. record c { reminder_overrides = if is_empty_override o then none else o })

record CreateAccountInput : Type 0 where
  pub id : String
  pub kind : AccountKind
  pub display_name : String
  pub settings : Option JsonMap

abbrev or_no_entries : Option JsonMap → Option JsonMap
or_no_entries none = none
or_no_entries (some []) = none
or_no_entries (some (e ∷ m)) = some (e ∷ m)

abbrev new_account : CreateAccountInput → AccountRow
new_account input = record {
  id = input.id;
  kind = input.kind;
  display_name = input.display_name;
  settings = or_no_entries input.settings;
  needs_reauth = false;
  auth_error = "";
  sync_notice = "";
}

unfoldable insert_account : AccountRow → Tables → Result AccountRow × Tables
insert_account a t = elim (select (λ (b : AccountRow). b.id == a.id) t.accounts) [
  | [] ↦ (ok a, record t { accounts = a ∷ t.accounts })
  | _ ∷ _ ↦ (err constraint, t)
]

unfoldable create_account : CreateAccountInput → M AccountRow
create_account input = update (insert_account (new_account input))

unfoldable pub update_accounts :
    String → (AccountRow → AccountRow) → List AccountRow → List AccountRow
update_accounts id f [] = []
update_accounts id f (a ∷ rest) = (if a.id == id then f a else a) ∷ update_accounts id f rest

unfoldable pub update_account_by_id : String → (AccountRow → AccountRow) → M AccountRow
update_account_by_id id f = update λ t.
    let rows = update_accounts id f t.accounts in
    (only (select (λ (a : AccountRow). a.id == id) rows), record t { accounts = rows })

abbrev or_name : Option String → String → String
or_name none old = old
or_name (some name) old = name

abbrev or_settings : Option JsonMap → Option JsonMap → Option JsonMap
or_settings none old = old
or_settings (some m) old = some m

-- `UpdateAccount`
unfoldable update_account : String → Option String → Option JsonMap → M AccountRow
update_account id display_name settings = update_account_by_id id (λ a. record a {
  display_name = or_name display_name a.display_name;
  settings = or_settings settings a.settings;
})

unfoldable pub set_account_auth_state : String → Bool → String → M AccountRow
set_account_auth_state id needs_reauth auth_error =
    update_account_by_id id (λ a. record a { needs_reauth = needs_reauth; auth_error = auth_error })

unfoldable pub set_account_sync_notice : String → String → M AccountRow
set_account_sync_notice id notice = update_account_by_id id (λ a. record a { sync_notice = notice })

unfoldable get_account : String → M AccountRow
get_account id = query λ t. only (select (λ (a : AccountRow). a.id == id) t.accounts)

unfoldable pub delete_account_events : String → M (Unit {0})
delete_account_events id = update λ t. (
  ok tt,
  record t {
    events =
        select (λ (r : EventRow). not (some_calendar (of_account id) t.calendars r.calendar_id))
          t.events;
  },
)

unfoldable pub delete_account_secrets : String → M (Unit {0})
delete_account_secrets id = update λ t.
    (ok tt, record t { secrets = select (λ (s : SecretRow). not (s.account_id == id)) t.secrets })

unfoldable pub delete_account_row : String → M (Unit {0})
delete_account_row id = update λ t. (
  ok tt,
  record (without_calendars (of_account id) t) {
    secrets = select (λ (s : SecretRow). not (s.account_id == id)) t.secrets;
    accounts = select (λ (a : AccountRow). not (a.id == id)) t.accounts;
  },
)

-- `DeleteAccount`
unfoldable pub delete_account : String → M (Unit {0})
delete_account id = with_tx (
    wrap_error "delete account events" (delete_account_events id)
    >> (wrap_error "delete account calendars" (delete_calendars_where (of_account id))
        >> (wrap_error "delete account secrets" (delete_account_secrets id)
            >> wrap_error "delete account" (delete_account_row id))))
