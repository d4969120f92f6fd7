-- ===== src/Ipc/Proper/Calendars.antt =====
-- The requests of core/internal/ipc on calendars.
use dankcalendar.Base.{
  String, Bool, true, false, not, Option, none, some, ◌==◌, string_eq, if◌then◌else◌, ◌≡◌, refl,
}
use dankcalendar.Repo.Store.{AccountRow, World, M}
use dankcalendar.Ipc.Params.{Params, Wire, present}
use dankcalendar.Ipc.Handler.{Handler, ◌>>=◌, ◌>>◌, respond, run_repo, publish}
use dankcalendar.Ipc.Calendars.{
  resync_account, handle_calendar_set_hidden, handle_calendar_set_sync_disabled,
  handle_calendar_rename, handle_calendar_set_reminders, handle_calendar_delete,
}
use dankcalendar.Ipc.Proper.{
  Anything, run_repo-Silent, then-Proper, if-Proper, refuse-Proper, publish-Announced,
}
use dankcalendar.Ipc.Effects.{Proper, Announced, succeeds, calls, Announced-Proper}

-- Statements, and then a publication.
stored_then :
    {A B : Type 0} (m : M A) (topic type id : String) (k : Handler B)
    → ((w : World) → (succeeds (k w).result ≡ true) × (calls (k w).effects ≡ 0))
    → (world : World) → Proper ((run_repo m >> (publish topic type id >> k)) world)
unfolding ◌>>◌
stored_then m topic type id k h =
    then-Proper Anything _ (run_repo m) (run_repo-Silent m)
      (λ a q world. Announced-Proper (publish-Announced topic type id k h world))

published_answer :
    {A : Type 0} (topic type id : String) (a : A) (w : World)
    → (succeeds ((publish topic type id >> respond a) w).result ≡ true)
      × (calls ((publish topic type id >> respond a) w).effects ≡ 0)
unfolding ◌>>◌ ◌>>=◌ publish
published_answer topic type id a w = (refl, refl)

resync-first :
    {A : Type 0} (b : Bool) (o : Option AccountRow) (k : Handler A)
    → ((w : World) → Announced (k w))
    → (world : World) → Announced (((if b then resync_account o else respond tt) >> k) world)
unfolding resync_account ◌>>◌ ◌>>=◌
resync-first true none k h world = record {
  announced = (h world).announced;
  uncalled = (h world).uncalled;
}
resync-first true (some a) k h world = record {
  announced = (h world).announced;
  uncalled = (h world).uncalled;
}
resync-first false o k h world = record {
  announced = (h world).announced;
  uncalled = (h world).uncalled;
}

module _ (w : Wire) (p : Params) where
  pub set_hidden-Proper : (world : World) → Proper (handle_calendar_set_hidden w p world)
  unfolding handle_calendar_set_hidden
  set_hidden-Proper world =
      if-Proper (w.param_string p "calendarId" == "") _ _ world (refuse-Proper _ world) (
        if-Proper (not (present "hidden" p)) _ _ world (refuse-Proper _ world)
          (stored_then _ _ _ _ _ (λ w. (refl, refl)) world))

  pub set_sync_disabled-Proper :
      (syncs : Bool) (world : World) → Proper (handle_calendar_set_sync_disabled w syncs p world)
  unfolding handle_calendar_set_sync_disabled ◌>>◌
  set_sync_disabled-Proper syncs world =
      if-Proper (w.param_string p "calendarId" == "") _ _ world (refuse-Proper _ world) (
        if-Proper (not (present "disabled" p)) _ _ world (refuse-Proper _ world) (
          then-Proper Anything _ _ (run_repo-Silent _)
            (λ found q. then-Proper Anything _ _ (run_repo-Silent _) (λ u q' world'.
              Announced-Proper (
                resync-first _ found.1 _ (publish-Announced _ _ _ _ (published_answer _ _ _ _))
                  world')))
            world))

  pub rename-Proper : (world : World) → Proper (handle_calendar_rename w p world)
  unfolding handle_calendar_rename
  rename-Proper world =
      if-Proper (w.param_string p "calendarId" == "") _ _ world (refuse-Proper _ world)
        (stored_then _ _ _ _ _ (λ w. (refl, refl)) world)

  pub set_reminders-Proper : (world : World) → Proper (handle_calendar_set_reminders w p world)
  unfolding handle_calendar_set_reminders
  set_reminders-Proper world =
      if-Proper (w.param_string p "calendarId" == "") _ _ world (refuse-Proper _ world)
        (stored_then _ _ _ _ _ (λ w. (refl, refl)) world)

  pub delete-Proper : (world : World) → Proper (handle_calendar_delete w p world)
  unfolding handle_calendar_delete
  delete-Proper world =
      if-Proper (w.param_string p "calendarId" == "") _ _ world (refuse-Proper _ world)
        (stored_then _ _ _ _ _ (published_answer _ _ _ _) world)
