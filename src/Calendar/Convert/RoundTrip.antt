-- ===== src/Calendar/Convert/RoundTrip.antt =====
-- The round trips of core/internal/calendar/convert.go, through the columns as they are written and
-- as a JSON column may give them back.
use dankcalendar.Base.{
  String, List, [], ◌∷◌, ◌++◌, map, none, some, ◌≡◌, refl, ap, string_eq, arith,
}
use mathlib.Core.Option
use dankcalendar.Calendar.Types.{Attendee, Reminder, Recurrence}
use dankcalendar.Calendar.Json.{Json, int, int64, float64, texts, items, JsonMap, get}
use dankcalendar.Calendar.Convert.{
  attendee_to_map, attendees_to_maps, attendee_from_map, attendees_from_maps, reminder_to_map,
  reminders_to_maps, reminder_from_map, kept_reminders, reminders_from_maps, recurrence_from_map,
  recurrence_to_map, write_texts, recurrence_or_none, only_texts, string_slice,
}

-- What `encoding/json` gives back for a value that was written to a column.
abbrev pub decoded : Json → Json
decoded (int v) = float64 v
decoded (int64 v) = float64 v
decoded (texts v) = items (map some v)
decoded v = v

-- A column keeps every key, with its value as decoded; the order of the keys may change.
pub record IsJsonColumn (column : JsonMap → JsonMap) : Type 0 where
  pub get-column : (m : JsonMap) (k : String) → get (column m) k ≡ Option.map decoded (get m k)

only_texts-map : (ss : List String) → only_texts (map some ss) ≡ ss
unfolding only_texts
only_texts-map [] = refl
only_texts-map (s ∷ ss) = ap (◌∷◌ s) (only_texts-map ss)

recurrence_from_map-none : recurrence_from_map none ≡ none
unfolding recurrence_from_map
recurrence_from_map-none = refl

recurrence_from_map_lem :
    (m : JsonMap)
    → recurrence_from_map (some m)
      ≡ recurrence_or_none (record {
        rrule = string_slice (get m "rrule");
        rdate = string_slice (get m "rdate");
        exdate = string_slice (get m "exdate");
      })
unfolding recurrence_from_map
recurrence_from_map_lem [] = refl
recurrence_from_map_lem (e ∷ m) = refl

module _ (column : JsonMap → JsonMap) (law : IsJsonColumn column) where
  pub attendee_through : (a : Attendee) → attendee_from_map (column (attendee_to_map a)) ≡ a
  unfolding attendee_from_map attendee_to_map
  attendee_through a =
      let m = attendee_to_map a in
      ground (
        arith,
        law.get-column m "email",
        law.get-column m "displayName",
        law.get-column m "role",
        law.get-column m "status",
        law.get-column m "optional",
        law.get-column m "organizer",
      )

  attendees_through :
      (as' : List Attendee) → map attendee_from_map (map column (map attendee_to_map as')) ≡ as'
  attendees_through [] = refl
  attendees_through (a ∷ as') = rw (attendee_through a, attendees_through as')

  reminder_through : (r : Reminder) → reminder_from_map (column (reminder_to_map r)) ≡ some r
  unfolding reminder_from_map reminder_to_map
  reminder_through r =
      let m = reminder_to_map r in
      ground
        (arith, law.get-column m "method", law.get-column m "minutes", law.get-column m "related")

  reminders_through :
      (rs : List Reminder) → kept_reminders (map column (map reminder_to_map rs)) ≡ rs
  unfolding kept_reminders
  reminders_through [] = refl
  reminders_through (r ∷ rs) =
      rw (reminder_through r, kept_reminders) (ap (◌∷◌ r) (reminders_through rs))

  recurrence_through :
      (r : Recurrence)
      → recurrence_from_map (Option.map column (recurrence_to_map (some r))) ≡ recurrence_or_none r
  unfolding recurrence_to_map string_slice get string_eq
  recurrence_through r =
      let m =
        write_texts "rrule" r.rrule
        ++ (write_texts "rdate" r.rdate ++ write_texts "exdate" r.exdate) in
      ground (
        arith,
        recurrence_from_map-none,
        recurrence_from_map_lem (column m),
        law.get-column m "rrule",
        law.get-column m "rdate",
        law.get-column m "exdate",
        recurrence_from_map_lem m,
        only_texts-map r.rrule,
        only_texts-map r.rdate,
        only_texts-map r.exdate,
      )

  -- What is read back from the columns of an event or a task is what was written, though the column
  -- returns numbers as floats and string lists as lists of any values: the attendees and the
  -- reminders in full, and the recurrence unless all its lists are empty.
  pub columns_round_trip :
      (as' : List Attendee) (rs : List Reminder) (rec : Recurrence)
      → (attendees_from_maps (Option.map (map column) (attendees_to_maps as')) ≡ as')
        × (reminders_from_maps (Option.map (map column) (reminders_to_maps rs)) ≡ rs)
        × (recurrence_from_map (Option.map column (recurrence_to_map (some rec)))
            ≡ recurrence_or_none rec)
  columns_round_trip as' rs rec = (attendees as', reminders rs, recurrence_through rec)
    where
      attendees :
          (as' : List Attendee)
          → attendees_from_maps (Option.map (map column) (attendees_to_maps as')) ≡ as'
      attendees [] = unfold attendees_from_maps attendees_to_maps in refl
      attendees (a ∷ rest) =
          unfold attendees_from_maps attendees_to_maps in attendees_through (a ∷ rest)

      reminders :
          (rs : List Reminder)
          → reminders_from_maps (Option.map (map column) (reminders_to_maps rs)) ≡ rs
      reminders [] = unfold reminders_from_maps reminders_to_maps in refl
      reminders (r ∷ rest) =
          unfold reminders_from_maps reminders_to_maps in reminders_through (r ∷ rest)
