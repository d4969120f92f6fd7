-- ===== src/Ipc/Calendars.antt =====
-- core/internal/ipc/events_write.go: the requests on calendars.
use dankcalendar.Base.{
  [], ◌∷◌, [], ◌∷◌, Bool, not, ◌&&◌, Option, none, some, ◌==◌, string_eq, lookup, if◌then◌else◌,
}
use dankcalendar.Calendar.Json.{JsonMap}
use dankcalendar.Settings.{reminder_override_from_param}
use dankcalendar.Repo.Store.{ok, AccountRow}
use dankcalendar.Repo.Accounts.{
  delete_calendar, set_calendar_sync_disabled, set_calendar_hidden, set_calendar_name_override,
  set_calendar_reminders,
}
use dankcalendar.Rsvp.{get_calendar_with_account}
use dankcalendar.Ipc.Params.{Param, null, array, table, value, Params, Wire, present}
use dankcalendar.Ipc.Handler.{
  resync, Answer, was_deleted, calendar_hidden, calendar_disabled, calendar_named, calendar_set,
  Handler, ◌>>=◌, ◌>>◌, respond, refuse, run_repo, publish,
}

abbrev overrides_param : Option Param → Option JsonMap
overrides_param (some (table m)) = some m
overrides_param (some null) = none
overrides_param (some (array is)) = none
overrides_param (some (value v)) = none
overrides_param none = none

-- `SyncAccount` in the background, where the calendar has its account.
unfoldable pub resync_account : Option AccountRow → Handler (Unit {0})
resync_account none w = record { result = ok tt; effects = []; world = w }
resync_account (some a) w = record { result = ok tt; effects = resync a.id ∷ []; world = w }

module _ (w : Wire) where
  unfoldable pub handle_calendar_set_hidden : Params → Handler Answer
  handle_calendar_set_hidden p =
      let id = w.param_string p "calendarId" in
      let hidden = w.param_bool p "hidden" in
      if id == ""
      then refuse "calendarId is required"
      else if not (present "hidden" p)
      then refuse "hidden is required"
      else run_repo (set_calendar_hidden id hidden)
        >> (publish "calendars" "changed" id >> respond (calendar_hidden id hidden))

  -- `syncs` says whether there is a `SyncTrigger`.
  unfoldable pub handle_calendar_set_sync_disabled : Bool → Params → Handler Answer
  handle_calendar_set_sync_disabled syncs p =
      let id = w.param_string p "calendarId" in
      let disabled = w.param_bool p "disabled" in
      if id == ""
      then refuse "calendarId is required"
      else if not (present "disabled" p)
      then refuse "disabled is required"
      else run_repo (get_calendar_with_account id) >>= λ found.
          run_repo (set_calendar_sync_disabled id disabled)
          >> ((if not disabled && syncs then resync_account found.1 else respond tt)
              >> (publish "calendars" "changed" id
                  >> (publish "events" "changed" id >> respond (calendar_disabled id disabled))))

  unfoldable pub handle_calendar_rename : Params → Handler Answer
  handle_calendar_rename p =
      let id = w.param_string p "calendarId" in
      let name = w.trim_space (w.param_string p "name") in
      if id == ""
      then refuse "calendarId is required"
      else run_repo (set_calendar_name_override id name)
        >> (publish "calendars" "changed" id >> respond (calendar_named id name))

  unfoldable pub handle_calendar_set_reminders : Params → Handler Answer
  handle_calendar_set_reminders p =
      let id = w.param_string p "calendarId" in
      let override = reminder_override_from_param (overrides_param (lookup "overrides" p)) in
      if id == ""
      then refuse "calendarId is required"
      else run_repo (set_calendar_reminders id (some override))
        >> (publish "calendars" "changed" id >> respond (calendar_set id))

  unfoldable pub handle_calendar_delete : Params → Handler Answer
  handle_calendar_delete p =
      let id = w.param_string p "calendarId" in
      if id == ""
      then refuse "calendarId is required"
      else run_repo (delete_calendar id)
        >> (publish "calendars" "deleted" id
            >> (publish "events" "changed" id >> respond was_deleted))
