-- ===== src/Rsvp.antt =====
-- core/internal/rsvp/apply.go: submitting the user's answer to an invitation.
pub mod Stamped
use dankcalendar.Base.{
  ℤ, ◌+ℤ◌, ◌-ℤ◌, ℕ, String, Bool, true, false, not, ◌&&◌, List, [], ◌∷◌, is_empty, Option, none,
  some, ◌==◌, string_eq, int_eq, if◌then◌else◌,
}
use dankcalendar.Calendar.Types.{Calendar, Attendee, Recurrence, Event, is_zero}
use dankcalendar.Calendar.Rsvp.{
  Texts, Account, canonical, can_respond, normalize_response, self_email, self_attendee_index,
  set_status,
}
use dankcalendar.Repo.Store.{
  Error, refused, Result, ok, err, EventRow, CalendarRow, AccountRow, Tables, M, ◌>>=◌, pure, raise,
  query, only,
}
use dankcalendar.Repo.Events.{select, upsert_event}
use dankcalendar.Repo.Queries.{get_event}
use dankcalendar.Conv.Events.{event_from_row, event_upsert_input}

-- The provider of an account, as far as it answers; `respond` is there where it is a `Responder`.
pub record Provider : Type 0 where
  pub respond : Option (Calendar → Event → String → Result Event)
  pub update_event : Calendar → Event → Result Event

pub record Reply : Type 0 where
  pub event_id : String
  pub calendar_id : String
  pub response : String
  pub summary : String

-- The calendar with its account, `none` where the edge is nil.
abbrev pub find_account : List AccountRow → String → Option AccountRow
find_account [] id = none
find_account (a ∷ rest) id = if a.id == id then some a else find_account rest id

abbrev pub joined : List AccountRow → Result CalendarRow → Result (CalendarRow × Option AccountRow)
joined accounts (err e) = err e
joined accounts (ok c) = ok (c, find_account accounts c.account_id)

unfoldable pub get_calendar_with_account : String → M (CalendarRow × Option AccountRow)
get_calendar_with_account id =
    query λ t. joined t.accounts (only (select (λ (c : CalendarRow). c.id == id) t.calendars))

abbrev pub domain_account : AccountRow → Account
domain_account a = record {
  id = a.id;
  kind = a.kind;
  display_name = a.display_name;
  settings = a.settings;
}

abbrev domain_calendar : CalendarRow → AccountRow → Calendar
domain_calendar c a = record {
  id = c.id;
  account_id = a.id;
  remote_id = c.remote_id;
  name = c.name;
  description = "";
  color = "";
  time_zone = c.time_zone;
  read_only = c.read_only;
  hidden = false;
  sync_token = "";
  supported_components = [];
}

abbrev pub recurs : Option Recurrence → Bool
recurs none = false
recurs (some r) = true

-- A reply for one occurrence stands for that instance of the series.
unfoldable pub pinned : ℤ → Event → Event
pinned start ev =
    if not (is_zero start) && recurs ev.recurrence
    then record ev {
      recurring_id = ev.uid;
      original_start = start;
      start = start;
      end = start +ℤ (ev.end -ℤ ev.start);
      recurrence = none;
    }
    else ev

abbrev pub answered : String → ℕ → Event → Event
answered response i ev = record ev { attendees = set_status response i ev.attendees }

abbrev lift : {A : Type 0} → Result A → M A
lift (ok a) = pure a
lift (err e) = raise e

abbrev submit_by :
    Option (Calendar → Event → String → Result Event)
    → Provider
    → Calendar
    → Event
    → String
    → Result Event
submit_by none p c ev response = p.update_event c ev
submit_by (some f) p c ev response = f c ev response

unfoldable pub submit : Provider → Calendar → Event → String → Result Event
submit p c ev response = submit_by p.respond p c ev response

-- What the provider gave back, with the answer where it leaves that out: `sent` are the attendees that
-- were submitted.
unfoldable pub stamped_at : String → List Attendee → Event → Option ℕ → Event
stamped_at response sent updated (some i) = answered response i updated
stamped_at response sent updated none =
    if is_empty updated.attendees then record updated { attendees = sent } else updated

module _ (texts : Texts) where
  unfoldable pub stamped : String → String → List Attendee → Event → Event
  stamped response email sent updated =
      stamped_at response sent updated (self_attendee_index texts updated.attendees email)

  module _ (build : Account → Result Provider) where
    unfoldable pub store_answer : Calendar → String → String → List Attendee → Event → M Reply
    store_answer c email response sent updated =
        upsert_event (event_upsert_input c.id (stamped response email sent updated)) >>= λ row.
        pure (record {
          event_id = row.id;
          calendar_id = c.id;
          response = response;
          summary = row.summary;
        })

    unfoldable pub submit_answer : CalendarRow → AccountRow → String → Event → Option ℕ → M Reply
    submit_answer c a response ev none = raise (refused "you are not an attendee of this event")
    submit_answer c a response ev (some i) =
        let sent = answered response i ev in
        lift (build (domain_account a)) >>= λ provider.
        lift (submit provider (domain_calendar c a) sent response) >>= λ updated.
        store_answer (domain_calendar c a) (self_email texts (domain_account a)) response
          sent.attendees updated

    unfoldable pub answer_for : EventRow → String → ℤ → CalendarRow × Option AccountRow → M Reply
    answer_for row response start (c, none) =
        raise (refused (if c.read_only then "calendar is read-only" else "calendar has no account"))
    answer_for row response start (c, some a) =
        let ev = pinned start (event_from_row row) in
        if c.read_only
        then raise (refused "calendar is read-only")
        else submit_answer c a response ev
            (self_attendee_index texts ev.attendees (self_email texts (domain_account a)))

    unfoldable pub answer_row : String → ℤ → EventRow → M Reply
    answer_row response start row =
        if row.calendar_id == ""
        then raise (refused "event has no calendar")
        else get_calendar_with_account row.calendar_id >>= answer_for row response start

    -- `Apply`
    unfoldable pub apply : String → String → ℤ → M Reply
    apply event_id response start =
        let answer = normalize_response texts response in
        if can_respond answer
        then get_event event_id >>= answer_row answer start
        else raise (refused "response must be accept, decline, or tentative")
