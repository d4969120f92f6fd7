-- ===== src/Conv/Events/RoundTrip.antt =====
-- core/internal/eventconv/eventconv.go with core/repo/events_mutations.go: what is stored of an
-- event, and what an update leaves behind.
use dankcalendar.Base.{
  ℤ, String, true, [], ◌∷◌, map, Option, none, some, ◌≡◌, refl, ap, ◌∙◌, arith, if◌then◌else◌,
}
use mathlib.Core.Option
use dankcalendar.Calendar.Types.{Event, Attendee, Recurrence, is_zero}
use dankcalendar.Calendar.Json.{JsonMap, get}
use dankcalendar.Calendar.Convert.{
  recurrence_or_none, recurrence_to_map, organizer_from_map, recurrence_from_map, attendee_to_map,
  attendee_from_map,
}
use dankcalendar.Calendar.Convert.RoundTrip.{IsJsonColumn, attendee_through, columns_round_trip}
use dankcalendar.Repo.Store.{EventRow}
use dankcalendar.Repo.Events.{set_fields, blank_event, or_kept}
use dankcalendar.Conv.Events.{
  event_status, event_upsert_input, event_from_row, organizer_to_map, or_zero,
}

-- A row as it is read again, with its JSON columns decoded.
abbrev pub reread : (JsonMap → JsonMap) → EventRow → EventRow
reread column r = record r {
  recurrence = Option.map column r.recurrence;
  organizer = Option.map column r.organizer;
  attendees = Option.map (map column) r.attendees;
  reminders = Option.map (map column) r.reminders;
}

abbrev marked : Option Attendee → Option Attendee
marked none = none
marked (some a) = some (record a { organizer = true })

abbrev or_no_recurrence : Option Recurrence → Option Recurrence
or_no_recurrence none = none
or_no_recurrence (some r) = recurrence_or_none r

-- The event that is read again: its identifier is the row's, its status is set, the organizer is
-- marked as such, and an empty recurrence is none.
abbrev pub normal : String → Event → Event
normal id ev = record ev {
  id = id;
  calendar_id = "";
  status = some (event_status ev.status);
  recurrence = or_no_recurrence ev.recurrence;
  organizer = marked ev.organizer;
}

or_kept-none : {A : Type 0} (o : Option A) → or_kept o none ≡ o
or_kept-none none = refl
or_kept-none (some a) = refl

original_start_kept : (t : ℤ) → or_zero (if is_zero t then none else some t) ≡ t
unfolding is_zero
original_start_kept t = ground arith

module _ (column : JsonMap → JsonMap) (law : IsJsonColumn column) where
  organizer_lem :
      (a : Attendee) (m : JsonMap)
      → m ≡ column (attendee_to_map a)
      → organizer_from_map (some m) ≡ marked (some a)
  unfolding organizer_from_map attendee_to_map get
  organizer_lem a [] e =
      absurd
        (ground (arith, e, ap (λ n. get n "email") e, law.get-column (attendee_to_map a) "email"))
  organizer_lem a (k ∷ m) e =
      let p : attendee_from_map (k ∷ m) ≡ a =
        ap attendee_from_map e ∙ attendee_through column law a in
      λ i. some (record (p i) { organizer = true })

  organizer_through :
      (o : Option Attendee) → organizer_from_map (Option.map column (organizer_to_map o)) ≡ marked o
  organizer_through none = unfold organizer_from_map in refl
  organizer_through (some a) = organizer_lem a (column (attendee_to_map a)) refl

  recurrence_kept :
      (r : Option Recurrence)
      → recurrence_from_map (Option.map column (recurrence_to_map r)) ≡ or_no_recurrence r
  recurrence_kept none = unfold recurrence_from_map recurrence_to_map in refl
  recurrence_kept (some r) = (columns_round_trip column law [] [] r).2

  -- An event that is stored under a new identifier and read again, through columns that decode
  -- numbers and lists as JSON does, is the event itself, up to what the row decides: the identifier,
  -- a status that is always set, the mark of the organizer, and none for an empty recurrence.
  pub event_round_trip :
      (id calendar_id : String) (ev : Event)
      → event_from_row (
          reread column
            (set_fields (event_upsert_input calendar_id ev) (blank_event id calendar_id ev.uid)))
        ≡ normal id ev
  unfolding event_from_row set_fields event_upsert_input
  event_round_trip id calendar_id ev = simp or_kept-none (
      ground (
        arith,
        original_start_kept ev.original_start,
        columns_round_trip column law ev.attendees ev.reminders
            (record { rrule = []; rdate = []; exdate = [] }),
        recurrence_kept ev.recurrence,
        organizer_through ev.organizer,
      ))
