-- ===== src/Ipc/Proper/Events.antt =====
-- The requests of core/internal/ipc on events.
use dankcalendar.Base.{String, true, ◌==◌, string_eq, ◌≡◌, refl}
use dankcalendar.Calendar.Types.{Calendar, Event}
use dankcalendar.Calendar.Rsvp.{Texts, Account}
use dankcalendar.Repo.Store.{Result, EventRow, World, M}
use dankcalendar.Ipc.Params.{Params, Wire}
use dankcalendar.Ipc.Handler.{
  Provider, Handler, ◌>>=◌, ◌>>◌, respond, run_repo, try_repo, provider_for_calendar,
}
use dankcalendar.Ipc.Events.{
  persist_event, publish_events_changed, create_by, handle_event_create, update_by, update_row,
  handle_event_update, delete_occurrence_by, delete_event_occurrence, delete_by, delete_row,
  handle_event_delete, handle_event_rsvp,
}
use dankcalendar.Ipc.Proper.{
  Anything, Writable, run_repo-Silent, respond_with-Silent, then-Proper, then-Announced, if-Proper,
  refuse-Proper, publish-Announced, call_provider-Proper, provider_for_calendar-Silent,
}
use dankcalendar.Ipc.Effects.{Proper, Announced, succeeds, calls, Announced-Proper}

module _ (w : Wire) (build : Account → Result Provider) where
  persist-Announced :
      {A : Type 0} (calendar_id at : String) (ev : Event) (answer : EventRow → A) (world : World)
      → Announced (
          (persist_event w build calendar_id ev >>= λ stored.
          publish_events_changed w build at >> respond (answer stored))
            world)
  unfolding persist_event publish_events_changed
  persist-Announced calendar_id at ev answer =
      then-Announced Anything _ (run_repo _) (run_repo-Silent _)
        (λ row q. publish-Announced "events" "changed" at _ (λ w. (refl, refl)))

  create_by-Proper :
      (ev : Event) (found : Provider × Calendar)
      → Writable found
      → (world : World) → Proper (create_by w build ev found world)
  unfolding create_by
  create_by-Proper ev (p, c) h =
      call_provider-Proper "create event" c _ _ _ h (λ made. persist-Announced c.id c.id made _)

  update_by-Proper :
      (ev : Event) (found : Provider × Calendar)
      → Writable found
      → (world : World) → Proper (update_by w build ev found world)
  unfolding update_by
  update_by-Proper ev (p, c) h =
      call_provider-Proper "update event" c _ _ _ h (λ made. persist-Announced c.id c.id made _)

  delete_occurrence_by-Proper :
      (at : String) (ev : Event) (found : Provider × Calendar)
      → Writable found
      → (world : World) → Proper (delete_occurrence_by w build at ev found world)
  unfolding delete_occurrence_by
  delete_occurrence_by-Proper at ev (p, c) h =
      call_provider-Proper "delete occurrence" c _ _ _ h (λ made. persist-Announced c.id at made _)

  delete_by-Proper :
      (row : EventRow) (found : Provider × Calendar)
      → Writable found
      → (world : World) → Proper (delete_by w build row found world)
  unfolding delete_by publish_events_changed
  delete_by-Proper row (p, c) h = call_provider-Proper "delete event" c _ _ _ h λ u.
      then-Announced Anything _ (run_repo _) (run_repo-Silent _)
        (λ n q. publish-Announced "events" "changed" row.calendar_id _ (λ w. (refl, refl)))

  -- What asks for a provider and then uses it.
  by_provider :
      {A : Type 0} (calendar_id : String) (f : Provider × Calendar → Handler A)
      → ((found : Provider × Calendar) → Writable found → (world : World) → Proper (f found world))
      → (world : World) → Proper ((provider_for_calendar build calendar_id >>= f) world)
  by_provider calendar_id f =
      then-Proper Writable f (provider_for_calendar build calendar_id)
        (provider_for_calendar-Silent build calendar_id)

  pub event_create-Proper :
      (p : Params) (world : World) → Proper (handle_event_create w build p world)
  unfolding handle_event_create
  event_create-Proper p world =
      if-Proper (w.param_string p "calendarId" == "") _ _ world (refuse-Proper _ world) (
        then-Proper Anything _ _ (respond_with-Silent _)
          (λ ev q. by_provider _ _ (create_by-Proper _)) world)

  update_row-Proper :
      (p : Params) (row : EventRow) (world : World) → Proper (update_row w build p row world)
  unfolding update_row
  update_row-Proper p row world =
      if-Proper (row.calendar_id == "") _ _ world (refuse-Proper _ world) (
        then-Proper Anything _ _ (respond_with-Silent _)
          (λ ev q. by_provider _ _ (update_by-Proper ev)) world)

  pub event_update-Proper :
      (p : Params) (world : World) → Proper (handle_event_update w build p world)
  unfolding handle_event_update
  event_update-Proper p world =
      if-Proper (w.param_string p "id" == "") _ _ world (refuse-Proper _ world)
        (then-Proper Anything _ _ (run_repo-Silent _) (λ row q. update_row-Proper p row) world)

  delete_row-Proper :
      (p : Params) (row : EventRow) (world : World) → Proper (delete_row w build p row world)
  unfolding delete_row delete_event_occurrence
  delete_row-Proper p row world =
      if-Proper (row.calendar_id == "") _ _ world (refuse-Proper _ world) (
        if-Proper (w.param_string p "occurrenceStart" == "") _ _ world
          (by_provider _ _ (delete_by-Proper row) world)
          (then-Proper Anything _ _ (respond_with-Silent _)
            (λ start q.
              then-Proper Anything _ _ (respond_with-Silent _)
                (λ ev q. by_provider _ _ (delete_occurrence_by-Proper row.calendar_id ev)))
            world))

  pub event_delete-Proper :
      (p : Params) (world : World) → Proper (handle_event_delete w build p world)
  unfolding handle_event_delete
  event_delete-Proper p world =
      if-Proper (w.param_string p "id" == "") _ _ world (refuse-Proper _ world)
        (then-Proper Anything _ _ (run_repo-Silent _) (λ row q. delete_row-Proper p row) world)

  try_succeeds :
      {A B : Type 0} (m : M A) (f : Result A → B) (world : World)
      → (succeeds ((try_repo m >>= λ r. respond (f r)) world).result ≡ true)
        × (calls ((try_repo m >>= λ r. respond (f r)) world).effects ≡ 0)
  unfolding try_repo ◌>>=◌
  try_succeeds m f world = (refl, refl)

  pub event_rsvp-Proper :
      (texts : Texts) (p : Params) (world : World)
      → Proper (handle_event_rsvp w build texts p world)
  unfolding handle_event_rsvp publish_events_changed
  event_rsvp-Proper texts p world =
      if-Proper (w.param_string p "id" == "") _ _ world (refuse-Proper _ world) (
        if-Proper (w.param_string p "response" == "") _ _ world (refuse-Proper _ world) (
          then-Proper Anything _ _ (respond_with-Silent _)
            (λ start q. then-Proper Anything _ _ (run_repo-Silent _) (λ reply q' world'.
              Announced-Proper (
                publish-Announced "events" "changed" reply.calendar_id _ (try_succeeds _ _)
                  world')))
            world))
