-- ===== src/Ipc/Events/Listed.antt =====
-- core/internal/ipc/handlers.go: the requests that read events.
use dankcalendar.Base.{
  ℤ, ◌+ℤ◌, ◌-ℤ◌, String, true, List, [], Option, none, some, ◌==◌, string_eq, if◌then◌else◌,
}
use dankcalendar.Repo.Store.{EventRow}
use dankcalendar.Repo.Queries.{get_event_by_uid}
use dankcalendar.Repo.Queries.Expanded.{Env, list_events}
use dankcalendar.Ipc.Params.{Params, Parsed, Wire}
use dankcalendar.Ipc.Handler.{
  Answer, event_found, events_found, Handler, ◌>>=◌, respond, refuse, run_repo,
}
use dankcalendar.Ipc.Events.{has_entries}

module _ (w : Wire) where
  abbrev parsed_instant : Option Parsed → Option ℤ
  parsed_instant none = none
  parsed_instant (some t) = some t.at

  -- A text that does not parse is no bound.
  unfoldable bound_from_param : String → Option ℤ
  bound_from_param raw = if raw == "" then none else parsed_instant (w.parse_rfc3339 raw)

  -- `order_events` and `sort_events` are SQL's and Go's sorting by start.
  module _ (env : Env) (order_events sort_events : List EventRow → List EventRow) where
    -- The case "events.list" of `HandleEvents`.
    unfoldable handle_event_list : Params → Handler Answer
    handle_event_list p =
        run_repo (
          list_events env order_events sort_events (record {
            filter = record {
              calendar_ids = [];
              from = bound_from_param (w.param_string p "from");
              to = bound_from_param (w.param_string p "to");
              query = w.param_string p "query";
              include_recurring = true;
            };
            limit = w.param_int p "limit";
            offset = w.param_int p "offset";
          }))
        >>= λ found. respond (events_found found.0 found.1)

    abbrev moved_to : Option ℤ → EventRow → EventRow
    moved_to none row = row
    moved_to (some t) row = record row { start = t; end = t +ℤ (row.end -ℤ row.start) }

    -- The case "events.get".
    unfoldable handle_event_get : Params → Handler Answer
    handle_event_get p =
        let uid = w.param_string p "uid" in
        if uid == ""
        then refuse "events.get requires a uid"
        else run_repo (get_event_by_uid order_events uid (w.param_string p "calendarId")) >>= λ row.
            respond (
              event_found (
                if has_entries row.recurrence
                then moved_to (bound_from_param (w.param_string p "start")) row
                else row))
