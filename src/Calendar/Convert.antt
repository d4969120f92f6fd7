-- ===== src/Calendar/Convert.antt =====
-- core/internal/calendar/convert.go. A map is built in the order of the source's writes, each to a
-- key of its own.
pub mod RoundTrip
use dankcalendar.Base.{
  ℤ, String, Bool, true, false, List, [], ◌∷◌, ◌++◌, map, Option, none, some, ◌==◌, string_eq,
  if◌then◌else◌,
}
use dankcalendar.Calendar.Types.{Attendee, Reminder, Recurrence}
use dankcalendar.Calendar.Json.{
  Json, text, flag, int, int64, float64, texts, items, JsonMap, get, as_text, as_flag,
}

-- `if s != "" { out[k] = s }`
unfoldable pub write_text : String → String → JsonMap
write_text k s = if s == "" then [] else (k, text s) ∷ []

-- `if b { out[k] = true }`
unfoldable write_flag : String → Bool → JsonMap
write_flag k b = if b then (k, flag true) ∷ [] else []

-- `Attendee.ToMap`
unfoldable pub attendee_to_map : Attendee → JsonMap
unfolding write_text write_flag
attendee_to_map a =
    (("email", text a.email) ∷ [])
    ++ (write_text "displayName" a.display_name
        ++ (write_text "role" a.role
            ++ (write_text "status" a.status
                ++ (write_flag "optional" a.optional ++ write_flag "organizer" a.organizer))))

-- A list column: `none` is nil, which an empty list gives.
unfoldable pub attendees_to_maps : List Attendee → Option (List JsonMap)
unfolding attendee_to_map
attendees_to_maps [] = none
attendees_to_maps (a ∷ as') = some (map attendee_to_map (a ∷ as'))

unfoldable pub attendee_from_map : JsonMap → Attendee
unfolding get as_text as_flag string_eq
attendee_from_map m = record {
  email = as_text (get m "email");
  display_name = as_text (get m "displayName");
  role = as_text (get m "role");
  status = as_text (get m "status");
  optional = as_flag (get m "optional");
  organizer = as_flag (get m "organizer");
}

unfoldable pub attendees_from_maps : Option (List JsonMap) → List Attendee
unfolding attendee_from_map
attendees_from_maps none = []
attendees_from_maps (some maps) = map attendee_from_map maps

unfoldable pub organizer_from_map : Option JsonMap → Option Attendee
unfolding attendee_from_map
organizer_from_map none = none
organizer_from_map (some []) = none
organizer_from_map (some (e ∷ m)) = some (record (attendee_from_map (e ∷ m)) { organizer = true })

unfoldable pub reminder_to_map : Reminder → JsonMap
unfolding write_text
reminder_to_map r =
    ("method", text r.method) ∷ ("minutes", int r.minutes) ∷ write_text "related" r.related

unfoldable pub reminders_to_maps : List Reminder → Option (List JsonMap)
unfolding reminder_to_map
reminders_to_maps [] = none
reminders_to_maps (r ∷ rs) = some (map reminder_to_map (r ∷ rs))

-- The type switch on `m["minutes"]`; `none` is its default.
unfoldable pub minutes_of : Option Json → Option ℤ
minutes_of (some (int v)) = some v
minutes_of (some (int64 v)) = some v
minutes_of (some (float64 v)) = some v
minutes_of none = none
minutes_of (some _) = none

-- The body of the loop; `none` is its `continue`.
unfoldable pub reminder_from_map : JsonMap → Option Reminder
unfolding minutes_of get as_text string_eq
reminder_from_map m = elim (minutes_of (get m "minutes")) [
  | none ↦ none
  | some minutes ↦ some (record {
    method = as_text (get m "method");
    minutes = minutes;
    related = as_text (get m "related");
  })
]

unfoldable pub kept_reminders : List JsonMap → List Reminder
unfolding reminder_from_map
kept_reminders [] = []
kept_reminders (m ∷ ms) = elim (reminder_from_map m) [
  | none ↦ kept_reminders ms
  | some r ↦ r ∷ kept_reminders ms
]

unfoldable pub reminders_from_maps : Option (List JsonMap) → List Reminder
unfolding kept_reminders
reminders_from_maps none = []
reminders_from_maps (some maps) = kept_reminders maps

-- The strings among the items of a `[]any`.
unfoldable pub only_texts : List (Option String) → List String
only_texts [] = []
only_texts (none ∷ rest) = only_texts rest
only_texts (some s ∷ rest) = s ∷ only_texts rest

unfoldable pub string_slice : Option Json → List String
unfolding only_texts
string_slice (some (texts v)) = v
string_slice (some (items v)) = only_texts v
string_slice none = []
string_slice (some _) = []

abbrev pub recurrence_or_none : Recurrence → Option Recurrence
recurrence_or_none r = elim (r.rrule ++ (r.rdate ++ r.exdate)) [ [] ↦ none | _ ∷ _ ↦ some r ]

unfoldable pub recurrence_from_map : Option JsonMap → Option Recurrence
unfolding string_slice get string_eq
recurrence_from_map none = none
recurrence_from_map (some []) = none
recurrence_from_map (some (e ∷ m)) = recurrence_or_none (record {
  rrule = string_slice (get (e ∷ m) "rrule");
  rdate = string_slice (get (e ∷ m) "rdate");
  exdate = string_slice (get (e ∷ m) "exdate");
})

-- `if len(v) > 0 { out[k] = v }`
unfoldable pub write_texts : String → List String → JsonMap
write_texts k [] = []
write_texts k (s ∷ ss) = (k, texts (s ∷ ss)) ∷ []

abbrev non_empty : JsonMap → Option JsonMap
non_empty [] = none
non_empty (e ∷ m) = some (e ∷ m)

-- `(*Recurrence).ToMap`
unfoldable pub recurrence_to_map : Option Recurrence → Option JsonMap
unfolding write_texts
recurrence_to_map none = none
recurrence_to_map (some r) =
    non_empty (
      write_texts "rrule" r.rrule ++ (write_texts "rdate" r.rdate ++ write_texts "exdate" r.exdate))
