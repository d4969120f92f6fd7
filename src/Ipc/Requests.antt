-- ===== src/Ipc/Requests.antt =====
-- The requests of core/internal/ipc on events, tasks and calendars, whatever the database and other
-- processes do meanwhile.
use dankcalendar.Base.{ℤ, Bool, ◌≡◌}
use dankcalendar.Calendar.Rsvp.{Texts, Account}
use dankcalendar.Recurrence.{Library}
use dankcalendar.Repo.Store.{Result, World}
use dankcalendar.Ipc.Params.{Params, Wire}
use dankcalendar.Ipc.Handler.{Provider, Answer, Outcome}
use dankcalendar.Ipc.Events.{
  handle_event_create, handle_event_update, handle_event_delete, handle_event_rsvp,
}
use dankcalendar.Ipc.Tasks.{
  handle_task_create, handle_task_update, handle_task_complete, handle_task_delete,
}
use dankcalendar.Ipc.Calendars.{
  handle_calendar_set_hidden, handle_calendar_set_sync_disabled, handle_calendar_rename,
  handle_calendar_set_reminders, handle_calendar_delete,
}
use dankcalendar.Ipc.Effects.{Proper, publishes, succeeds}
use dankcalendar.Ipc.Proper.Events.{
  event_create-Proper, event_update-Proper, event_delete-Proper, event_rsvp-Proper,
}
use dankcalendar.Ipc.Proper.Tasks.{
  task_create-Proper, task_update-Proper, task_complete-Proper, task_delete-Proper,
}
use dankcalendar.Ipc.Proper.Calendars.{
  set_hidden-Proper, set_sync_disabled-Proper, rename-Proper, set_reminders-Proper, delete-Proper,
}

abbrev pub Told : Outcome Answer → Type 0
Told o = publishes o.effects ≡ succeeds o.result

module _ (w : Wire) (build : Account → Result Provider) (p : Params) (world : World) where
  -- Every request that creates, updates or deletes an event or a task, or completes a task, publishes a
  -- change exactly if it is answered without an error; it calls the provider at most once, and never for a
  -- calendar that is read-only. This holds whatever the provider answers, whichever statements fail, and
  -- whatever other processes write meanwhile.
  pub writes-Proper :
      (lib : Library) (utc : lib.Location) (now : ℤ)
      → Proper (handle_event_create w build p world)
        × Proper (handle_event_update w build p world)
        × Proper (handle_event_delete w build p world)
        × Proper (handle_task_create w build p world)
        × Proper (handle_task_update w build p world)
        × Proper (handle_task_complete w build lib utc now p world)
        × Proper (handle_task_delete w build p world)
  writes-Proper lib utc now = (
    event_create-Proper w build p world,
    event_update-Proper w build p world,
    event_delete-Proper w build p world,
    task_create-Proper w build p world,
    task_update-Proper w build p world,
    task_complete-Proper w build lib utc now p world,
    task_delete-Proper w build p world,
  )

  -- So do the answer to an invitation and the requests that the user makes on a calendar: a change is
  -- published exactly if they are answered without an error.
  pub settings_announced :
      (texts : Texts) (syncs : Bool)
      → Told (handle_event_rsvp w build texts p world)
        × Told (handle_calendar_set_hidden w p world)
        × Told (handle_calendar_set_sync_disabled w syncs p world)
        × Told (handle_calendar_rename w p world)
        × Told (handle_calendar_set_reminders w p world)
        × Told (handle_calendar_delete w p world)
  settings_announced texts syncs = (
    (event_rsvp-Proper w build texts p world).announced,
    (set_hidden-Proper w p world).announced,
    (set_sync_disabled-Proper w p syncs world).announced,
    (rename-Proper w p world).announced,
    (set_reminders-Proper w p world).announced,
    (delete-Proper w p world).announced,
  )
