-- ===== src/Ipc/Params.antt =====
-- core/internal/ipc/events_write.go, and recurrenceFromParam of tasks.go: what the parameters of a
-- request make of an event.
pub mod Overlay
pub mod Tasks
use Prim.Native.String.{◌++◌}
use dankcalendar.Base.{
  ℤ, ◌+ℤ◌, ◌-ℤ◌, ltb_ℤ, String, Bool, true, false, ◌&&◌, ◌||◌, List, [], ◌∷◌, Option, none, some,
  ◌==◌, string_eq, if◌then◌else◌, Dict, lookup,
}
use dankcalendar.Calendar.Types.{
  Reminder, Recurrence, Event, EventStatus, confirmed, tentative, cancelled, Task, TaskStatus,
  zero_time,
}
use dankcalendar.Calendar.Json.{Json, text, int, int64, float64, texts, JsonMap, get, as_text}
use dankcalendar.Calendar.Convert.{recurrence_or_none}
use dankcalendar.Repo.Store.{Error, refused, Result, ok, err}

-- An item of a `[]any`: a map or another value.
pub data Item : Type 0 where
  entry : JsonMap → Item
  item : Json → Item

pub data Param : Type 0 where
  null : Param
  array : List Item → Param
  table : JsonMap → Param
  value : Json → Param

-- `map[string]any`
abbrev pub Params : Type 0
Params = Dict String Param

-- A `time.Time` that a text gives: its instant, and `allDayDate` of it, the midnight in UTC of the
-- date that it is written with.
pub record Parsed : Type 0 where
  pub at : ℤ
  pub date : ℤ

-- What the handlers call of dux-go and of Go's libraries.
pub record Wire : Type 0 where
  -- `params.StringOpt`, `params.BoolLoose` and `params.IntOpt`, with the defaults of router.go
  pub param_string : Params → String → String
  pub param_bool : Params → String → Bool
  pub param_int : Params → String → ℤ
  -- `time.Parse(time.RFC3339, …)`
  pub parse_rfc3339 : String → Option Parsed
  -- `UTC().Format("20060102")` and `UTC().Format("20060102T150405Z")`
  pub format_date : ℤ → String
  pub format_time : ℤ → String
  pub trim_space : String → String
  pub to_lower : String → String
  -- `tzcache.LocalName()`
  pub local_name : String
  -- Whether the iteration over the map of the two times comes to "end" first.
  pub end_first : Bool

abbrev pub and_then : {A B : Type 0} → Result A → (A → Result B) → Result B
and_then (ok a) f = f a
and_then (err e) f = err e

-- `_, ok := p[key]`
unfoldable pub present : String → Params → Bool
present key p = elim (lookup key p) [ none ↦ false | some v ↦ true ]

abbrev pub given : {A : Type 0} → Params → String → A → A → A
given p key new old = if present key p then new else old

unfoldable pub status_from_param : String → EventStatus
status_from_param s =
    if s == "tentative" then tentative else if s == "cancelled" then cancelled else confirmed

unfoldable pub transparency_from_param : Wire → String → Result String
transparency_from_param w raw =
    let s = w.to_lower (w.trim_space raw) in
    if s == ""
    then ok ""
    else if s == "opaque" || s == "busy"
    then ok "opaque"
    else if s == "transparent" || s == "free"
    then ok "transparent"
    else err (refused "transparency must be opaque or transparent")

unfoldable pub reminder_minutes : Option Json → Option ℤ
reminder_minutes (some (int v)) = some v
reminder_minutes (some (int64 v)) = some v
reminder_minutes (some (float64 v)) = some v
reminder_minutes none = none
reminder_minutes (some _) = none

abbrev or_popup : String → String
or_popup method = if method == "" then "popup" else method

abbrev reminder_of : JsonMap → Option ℤ → Result Reminder
reminder_of m none = err (refused "reminder minutes must be a number")
reminder_of m (some minutes) = ok (record {
  method = or_popup (as_text (get m "method"));
  minutes = minutes;
  related = as_text (get m "related");
})

-- The body of the loop over the entries.
unfoldable pub reminder_from_item : Item → Result Reminder
reminder_from_item (item v) = err (refused "reminders entries must be objects")
reminder_from_item (entry m) = reminder_of m (reminder_minutes (get m "minutes"))

unfoldable pub reminders_from_items : List Item → Result (List Reminder)
reminders_from_items [] = ok []
reminders_from_items (i ∷ is) =
    let rest = reminders_from_items is in
    and_then (reminder_from_item i) λ r. and_then rest λ rs. ok (r ∷ rs)

unfoldable pub reminders_from_param : Param → Result (List Reminder)
reminders_from_param null = ok []
reminders_from_param (array is) = reminders_from_items is
reminders_from_param (table m) = err (refused "reminders must be an array")
reminders_from_param (value v) = err (refused "reminders must be an array")

unfoldable pub texts_of_items : List Item → List String
texts_of_items [] = []
texts_of_items (item (text s) ∷ is) =
    let rest = texts_of_items is in if s == "" then rest else s ∷ rest
texts_of_items (item _ ∷ is) = texts_of_items is
texts_of_items (entry m ∷ is) = texts_of_items is

-- The type switch on the rules.
unfoldable pub rules_from_param : Param → List String
rules_from_param (value (text s)) = if s == "" then [] else s ∷ []
rules_from_param (value (texts v)) = v
rules_from_param (array is) = texts_of_items is
rules_from_param null = []
rules_from_param (table m) = []
rules_from_param (value _) = []

abbrev rdates : Option Recurrence → List String
rdates none = []
rdates (some r) = r.rdate

abbrev exdates : Option Recurrence → List String
exdates none = []
exdates (some r) = r.exdate

unfoldable pub recurrence_from_param : Option Recurrence → Param → Option Recurrence
recurrence_from_param base raw =
    recurrence_or_none
      (record { rrule = rules_from_param raw; rdate = rdates base; exdate = exdates base })

abbrev pub given_reminders : Option Param → List Reminder → Result (List Reminder)
given_reminders none old = ok old
given_reminders (some raw) old = reminders_from_param raw

abbrev pub given_recurrence : Option Param → Option Recurrence → Option Recurrence
given_recurrence none old = old
given_recurrence (some raw) old = recurrence_from_param old raw

unfoldable pub exdate_value : Wire → ℤ → Bool → String
exdate_value w start all_day = if all_day then w.format_date start else w.format_time start

abbrev day_or_time : Bool → Parsed → ℤ
day_or_time all_day t = if all_day then t.date else t.at

abbrev pub time_or : String → Bool → Option Parsed → Result ℤ
time_or key all_day none = err (refused (key ++ " must be RFC3339"))
time_or key all_day (some t) = ok (day_or_time all_day t)

unfoldable pub parse_occurrence_start : Wire → String → Bool → Result ℤ
parse_occurrence_start w raw all_day = time_or "occurrenceStart" all_day (w.parse_rfc3339 raw)

-- `shiftSeriesTimes`
unfoldable pub shift_series_times : Event → ℤ → ℤ → Event
shift_series_times ev master_start occurrence_start =
    let start = master_start +ℤ (ev.start -ℤ occurrence_start) in
    record ev { start = start; end = start +ℤ (ev.end -ℤ ev.start) }

module _ (w : Wire) where
  -- The body of the loop over the two times.
  unfoldable pub given_time : Params → String → Bool → ℤ → Result ℤ
  given_time p key all_day old =
      let raw = w.param_string p key in
      if raw == "" then ok old else time_or key all_day (w.parse_rfc3339 raw)

  abbrev pub with_start : Params → Event → Result Event
  with_start p ev =
      and_then (given_time p "start" ev.all_day ev.start) λ t. ok (record ev { start = t })

  abbrev pub with_end : Params → Event → Result Event
  with_end p ev = and_then (given_time p "end" ev.all_day ev.end) λ t. ok (record ev { end = t })

  unfoldable pub with_times : Params → Event → Result Event
  with_times p ev =
      if w.end_first
      then and_then (with_end p ev) (with_start p)
      else and_then (with_start p ev) (with_end p)

  abbrev pub given_transparency : Params → String → Result String
  given_transparency p old =
      if present "transparency" p
      then transparency_from_param w (w.param_string p "transparency")
      else ok old

  abbrev pub checked_times : Event → Result Event
  checked_times ev =
      if ltb_ℤ ev.end ev.start then err (refused "end must not be before start") else ok ev

  -- What the parameters that cannot fail set.
  unfoldable pub with_fields : Event → Params → String → List Reminder → Event
  with_fields base p transparency reminders = record base {
    summary = given p "summary" (w.param_string p "summary") base.summary;
    description = given p "description" (w.param_string p "description") base.description;
    location = given p "location" (w.param_string p "location") base.location;
    all_day = given p "allDay" (w.param_bool p "allDay") base.all_day;
    status = given p "status" (some (status_from_param (w.param_string p "status"))) base.status;
    transparency = transparency;
    reminders = reminders;
    recurrence = given_recurrence (lookup "recurrence" p) base.recurrence;
  }

  -- `eventFromParams`
  unfoldable pub event_from_params : Event → Params → Result Event
  event_from_params base p = and_then (given_transparency p base.transparency) λ transparency.
      and_then (given_reminders (lookup "reminders" p) base.reminders) λ reminders.
        and_then (with_times p (with_fields base p transparency reminders)) checked_times
