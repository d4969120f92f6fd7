-- ===== src/Google/Events/Writes/Sent.antt =====
-- What comes back of an event that core/internal/providers/google/provider.go sends to Google.
use dankcalendar.Base.{
  ℤ, ◌+ℤ◌, ◌<ℤ◌, String, Bool, true, false, List, [], ◌∷◌, map, Option, none, some, ◌==◌, string_eq,
  if◌then◌else◌, ◌≡◌, refl, sym, ap, ◌∙◌, inl, inr, Bool-cases, arith,
}
use dankcalendar.Calendar.Types.{
  Calendar, Attendee, Reminder, Recurrence, Event, EventStatus, confirmed, tentative, cancelled,
  is_zero,
}
use dankcalendar.Calendar.Convert.{recurrence_or_none}
use dankcalendar.Conv.Events.{event_status}
use dankcalendar.Google.Events.{
  GoogleEvent, Moment, day, Env, from_google_status, from_google_attendees, to_google_attendees,
  from_google_recurrence, from_google_time, all_day_end, from_google_event,
}
use dankcalendar.Google.Events.Lines.{CutsLines, recurrence_lines_round_trip}
use dankcalendar.Google.Events.Writes.{
  Formats, status_text, lines_sent, zone_sent, to_google_date, to_google_date_time, exclusive_end,
  start_sent, end_sent, to_google_event,
}

-- The times of the event are read as they were written.
pub record ReadsTimes (env : Env) (formats : Formats) (ev : Event) : Type 0 where
  pub timed :
      ev.all_day ≡ false
      → (env.parse_rfc3339 (formats.rfc3339 ev.start_time_zone ev.start) ≡ ev.start)
        × (env.parse_rfc3339 (formats.rfc3339 ev.end_time_zone ev.end) ≡ ev.end)
  pub dated :
      ev.all_day ≡ true
      → let end = exclusive_end formats ev.start ev.end in
        (formats.date ev.start == "" ≡ false)
        × (formats.date end == "" ≡ false)
        × (env.parse_date (formats.date ev.start) ≡ ev.start)
        × (env.parse_date (formats.date end) ≡ end)

-- The answer holds what was sent.
pub record Holds (sent item : GoogleEvent) : Type 0 where
  pub texts :
      (item.summary ≡ sent.summary)
      × (item.description ≡ sent.description)
      × (item.location ≡ sent.location)
      × (item.transparency ≡ sent.transparency)
  pub status : item.status ≡ sent.status
  pub recurrence : item.recurrence ≡ sent.recurrence
  pub attendees : item.attendees ≡ sent.attendees
  pub reminders : item.reminders ≡ sent.reminders
  pub start : item.start ≡ sent.start
  pub end : item.end ≡ sent.end

abbrev pub recurrence_back : Option Recurrence → Option Recurrence
recurrence_back none = none
recurrence_back (some r) = recurrence_or_none r

abbrev without_role : Attendee → Attendee
without_role a = record a { role = "" }

abbrev without_relation : Reminder → Reminder
without_relation r = record r { related = "" }

-- What is read back of an event.
pub record Back (formats : Formats) (ev back : Event) : Type 0 where
  pub texts :
      (back.summary ≡ ev.summary)
      × (back.description ≡ ev.description)
      × (back.location ≡ ev.location)
      × (back.transparency ≡ ev.transparency)
  pub status : back.status ≡ some (event_status ev.status)
  pub all_day : back.all_day ≡ ev.all_day
  pub start : back.start ≡ ev.start
  pub timed_end : ev.all_day ≡ false → back.end ≡ ev.end
  pub kept_end :
      ev.all_day ≡ true
      → is_zero ev.end ≡ false
      → formats.date ev.end == formats.date ev.start ≡ false
      → ev.start <ℤ ev.end
      → back.end ≡ ev.end
  pub next_day :
      ev.all_day ≡ true
      → formats.date ev.end == formats.date ev.start ≡ true
      → back.end ≡ ev.start +ℤ day
  pub zones :
      ev.all_day ≡ false
      → (back.start_time_zone ≡ zone_sent ev.recurrence ev.start_time_zone)
        × (back.end_time_zone ≡ zone_sent ev.recurrence ev.end_time_zone)
  pub recurrence : back.recurrence ≡ recurrence_back ev.recurrence
  pub attendees : back.attendees ≡ map without_role ev.attendees
  pub reminders : back.reminders ≡ map without_relation ev.reminders

from_status_text : (s : Option EventStatus) → from_google_status (status_text s) ≡ event_status s
unfolding from_google_status event_status string_eq
from_status_text none = refl
from_status_text (some confirmed) = refl
from_status_text (some tentative) = refl
from_status_text (some cancelled) = refl

attendees_through :
    (xs : List Attendee) → from_google_attendees (to_google_attendees xs) ≡ map without_role xs
unfolding from_google_attendees to_google_attendees
attendees_through [] = refl
attendees_through (a ∷ xs) = ap (λ (ys : List Attendee). without_role a ∷ ys) (attendees_through xs)

reminders_through :
    (rs : List Reminder)
    → map
        (λ (r : String × ℤ). record { method = r.0; minutes = r.1; related = "" })
        (map (λ (r : Reminder). (r.method, r.minutes)) rs)
      ≡ map without_relation rs
reminders_through [] = refl
reminders_through (r ∷ rs) =
    ap (λ (xs : List Reminder). without_relation r ∷ xs) (reminders_through rs)

recurrence_through :
    (env : Env)
    → CutsLines env
    → (o : Option Recurrence) → from_google_recurrence env (lines_sent o) ≡ recurrence_back o
unfolding from_google_recurrence
recurrence_through env law none = refl
recurrence_through env law (some r) = recurrence_lines_round_trip env law r

same_branches : {A : Type 0} (b : Bool) (x : A) → (if b then x else x) ≡ x
same_branches true x = refl
same_branches false x = refl

module _ (env : Env) (formats : Formats) (ev : Event) (reads : ReadsTimes env formats ev) where
  start_timed :
      ev.all_day ≡ false
      → from_google_time env (some (start_sent formats ev)) ≡ record {
        at = ev.start;
        is_date = false;
        time_zone = zone_sent ev.recurrence ev.start_time_zone;
      }
  unfolding from_google_time to_google_date_time to_google_date string_eq
  start_timed h = rw (h, (reads.timed h).0) refl

  end_timed :
      ev.all_day ≡ false
      → from_google_time env (some (end_sent formats ev)) ≡ record {
        at = ev.end;
        is_date = false;
        time_zone = zone_sent ev.recurrence ev.end_time_zone;
      }
  unfolding from_google_time to_google_date_time to_google_date string_eq
  end_timed h = rw (h, (reads.timed h).1) refl

  start_dated :
      ev.all_day ≡ true
      → from_google_time env (some (start_sent formats ev))
        ≡ record { at = ev.start; is_date = true; time_zone = "" }
  unfolding from_google_time to_google_date
  start_dated h = let (filled, _, read, _) = reads.dated h in rw (h, filled, read) refl

  end_dated :
      ev.all_day ≡ true
      → from_google_time env (some (end_sent formats ev))
        ≡ record { at = exclusive_end formats ev.start ev.end; is_date = true; time_zone = "" }
  unfolding from_google_time to_google_date
  end_dated h = let (_, filled, _, read) = reads.dated h in rw (h, filled, read) refl

  end_kept :
      is_zero ev.end ≡ false
      → formats.date ev.end == formats.date ev.start ≡ false
      → ev.start <ℤ ev.end
      → all_day_end true ev.start (exclusive_end formats ev.start ev.end) ≡ ev.end
  unfolding all_day_end exclusive_end
  end_kept z d l = rw (z, d) (ground arith)

  end_moved :
      formats.date ev.end == formats.date ev.start ≡ true
      → all_day_end true ev.start (exclusive_end formats ev.start ev.end) ≡ ev.start +ℤ day
  unfolding all_day_end exclusive_end
  end_moved d = elim (Bool-cases (is_zero ev.end)) [
    | inl e ↦ rw e (same_branches _ _)
    | inr e ↦ rw (e, d) (same_branches _ _)
  ]

ends_with :
    {s t s' t' : Moment}
    → s ≡ s'
    → t ≡ t'
    → all_day_end s.is_date s.at t.at ≡ all_day_end s'.is_date s'.at t'.at
ends_with p q i = all_day_end (p i).is_date (p i).at (q i).at

-- An event that Google answers to hold what was sent is read back with the texts, status, recurrence and
-- times of the event, and its attendees and reminders less the roles and relations that Google does not
-- know; a timed event of a series without a zone gets UTC, and an all-day event that ends on the date of
-- its start gets the next day. Conditions: the lines are cut, and the times are read, as they were written.
pub sent_event_round_trip :
    (env : Env) (formats : Formats) (c : Calendar) (ev : Event) (item : GoogleEvent)
    → CutsLines env
    → ReadsTimes env formats ev
    → Holds (to_google_event formats ev) item
    → Back formats ev (from_google_event env c item)
unfolding from_google_event to_google_event all_day_end
sent_event_round_trip env formats c ev item law reads h =
    let from = ap (from_google_time env) h.start in
    let to = ap (from_google_time env) h.end in
    record {
      texts = h.texts;
      status =
          ap (λ s. some (from_google_status s)) h.status
          ∙ ap (λ s. some s) (from_status_text ev.status);
      all_day = elim (Bool-cases ev.all_day) [
        | inl e ↦ ap (λ m. m.is_date) (from ∙ start_dated env formats ev reads e) ∙ sym e
        | inr e ↦ ap (λ m. m.is_date) (from ∙ start_timed env formats ev reads e) ∙ sym e
      ];
      start = elim (Bool-cases ev.all_day) [
        | inl e ↦ ap (λ m. m.at) (from ∙ start_dated env formats ev reads e)
        | inr e ↦ ap (λ m. m.at) (from ∙ start_timed env formats ev reads e)
      ];
      timed_end = λ e.
          ends_with (from ∙ start_timed env formats ev reads e)
            (to ∙ end_timed env formats ev reads e);
      kept_end = λ e z d l.
          ends_with (from ∙ start_dated env formats ev reads e)
            (to ∙ end_dated env formats ev reads e)
          ∙ end_kept env formats ev reads z d l;
      next_day = λ e d.
          ends_with (from ∙ start_dated env formats ev reads e)
            (to ∙ end_dated env formats ev reads e)
          ∙ end_moved env formats ev reads d;
      zones = λ e. (
        ap (λ m. m.time_zone) (from ∙ start_timed env formats ev reads e),
        ap (λ m. m.time_zone) (to ∙ end_timed env formats ev reads e),
      );
      recurrence =
          ap (from_google_recurrence env) h.recurrence ∙ recurrence_through env law ev.recurrence;
      attendees = ap from_google_attendees h.attendees ∙ attendees_through ev.attendees;
      reminders =
          ap (map {A = String × ℤ} (λ r. record { method = r.0; minutes = r.1; related = "" }))
            h.reminders
          ∙ reminders_through ev.reminders;
    }
