-- ===== src/Tests/GoogleWrites.antt =====
-- The events that core/internal/providers/google/provider.go sends, on small inputs.
use dankcalendar.Base.{
  pos, String, some, [], ◌∷◌, ◌==◌, string_eq, int_eq, if◌then◌else◌, ◌≡◌, refl, subst, arith,
}
use dankcalendar.Calendar.Types.{Event}
use dankcalendar.Conv.Events.{event_upsert_input}
use dankcalendar.Repo.Store.{Result, ok, EventRow}
use dankcalendar.Repo.Post.{ok-inj}
use dankcalendar.Repo.Events.{set_fields, blank_event}
use dankcalendar.Google.Events.{GoogleEvent, from_google_event}
use dankcalendar.Google.Events.Writes.{Formats, to_google_event, update_google_event}
use dankcalendar.Google.Events.Writes.Sent.{ReadsTimes, Holds, Back, sent_event_round_trip}
use dankcalendar.Ipc.Params.{exdate_value}
use dankcalendar.Calendar.Convert.{recurrence_from_map, recurrence_to_map}
use dankcalendar.Ipc.Events.{domain_event_from_ent, without_occurrence}
use dankcalendar.Ipc.Events.Google.{Updates, google_keeps_series}
use dankcalendar.Tests.Data.{meeting, weekly}
use dankcalendar.Tests.GoogleEvents.{calendar, cutting, cuts}
use dankcalendar.Tests.Requests.{wire}

abbrev formats : Formats
formats = record {
  date = λ t. "2026-01-01";
  rfc3339 = λ zone t. if t == pos 1000 then "early" else "late";
}

reads : ReadsTimes cutting formats meeting
unfolding string_eq int_eq
reads = record { timed = λ e. (refl, refl); dated = λ e. absurd (ground arith) }

-- Google gives the event an identifier and a tag.
abbrev answer : GoogleEvent
answer = record (to_google_event formats meeting) { id = "g1"; etag = "e2"; visibility = "private" }

kept : Holds (to_google_event formats meeting) answer
kept = record {
  texts = (refl, refl, refl, refl);
  status = refl;
  recurrence = refl;
  attendees = refl;
  reminders = refl;
  start = refl;
  end = refl;
}

sent_event_round_trip_example : Back formats meeting (from_google_event cutting calendar answer)
sent_event_round_trip_example =
    sent_event_round_trip cutting formats calendar meeting answer cuts reads kept

abbrev update : String → String → GoogleEvent → Result GoogleEvent
update calendar_id event_id sent = ok (record sent { id = event_id })

server : Updates update
server calendar_id event_id sent item h =
    subst (λ (x : GoogleEvent). Holds sent x × (x.id ≡ event_id))
      (ok-inj (record sent { id = event_id }) item h)
      (
        record {
          texts = (refl, refl, refl, refl);
          status = refl;
          recurrence = refl;
          attendees = refl;
          reminders = refl;
          start = refl;
          end = refl;
        },
        refl,
      )

abbrev row : EventRow
row =
    set_fields (event_upsert_input "c1" (record meeting { remote_id = "u1" }))
      (blank_event "id1" "c1" "u1")

row_reads : ReadsTimes cutting formats (domain_event_from_ent row)
unfolding string_eq int_eq domain_event_from_ent set_fields event_upsert_input
row_reads = record { timed = λ e. (refl, refl); dated = λ e. absurd (ground arith) }

abbrev excluding : Event
excluding = record (domain_event_from_ent row) {
  recurrence = some (record weekly { exdate = "20260101" ∷ "first" ∷ [] });
}

abbrev back : Event
back = from_google_event cutting calendar (record (to_google_event formats excluding) { id = "u1" })

made : without_occurrence wire row (pos 1000) ≡ ok excluding
unfolding without_occurrence domain_event_from_ent recurrence_from_map set_fields event_upsert_input
    recurrence_to_map exdate_value int_eq
made = refl

given : update_google_event formats cutting update calendar excluding ≡ ok back
unfolding update_google_event domain_event_from_ent set_fields event_upsert_input string_eq
given = refl

google_keeps_series_example :
    (back.recurrence ≡ excluding.recurrence)
    × (back.all_day ≡ excluding.all_day)
    × (back.uid ≡ excluding.uid)
unfolding set_fields event_upsert_input
google_keeps_series_example =
    google_keeps_series cutting formats update wire row (pos 1000) calendar excluding back cuts
      server row_reads refl made given
