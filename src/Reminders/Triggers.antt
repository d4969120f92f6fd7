-- ===== src/Reminders/Triggers.antt =====
-- core/internal/reminders/engine.go: when the reminders of an event and of a task are due.
pub mod Popup
use dankcalendar.Base.{
  ℤ, pos, negsuc, ℕ, suc, ◌*◌, ◌/◌, ◌+ℤ◌, ◌-ℤ◌, ◌*ℤ◌, ltb_ℤ, leb_ℤ, String, Bool, true, false, not,
  ◌&&◌, ◌||◌, List, [], ◌∷◌, ◌++◌, map, Option, none, some, ◌==◌, contains, string_eq, int_eq,
  if◌then◌else◌,
}
pub use dankcalendar.Settings.{UiSettings}
use dankcalendar.Calendar.Types.{Reminder, related_to_end}
use dankcalendar.Calendar.Convert.{reminders_from_maps}
use dankcalendar.Calendar.Json.{JsonMap}
use dankcalendar.Repo.Store.{EventRow, TaskRow}

abbrev pub minute : ℕ
minute = 60 * 1000000000

abbrev start_grace : ℤ
start_grace = pos (5 * minute)

abbrev all_day_late : ℤ
all_day_late = pos (24 * 60 * minute)

pub record Trigger : Type 0 where
  pub at : ℤ
  pub minutes : ℤ

unfoldable pub is_popup : String → Bool
is_popup method = method == "" || method == "popup" || method == "display"

-- The loop of `popupMinutesOf`, with the keys of `seen`.
unfoldable pub popup_loop : List ℤ → List Reminder → List ℤ
popup_loop seen [] = []
popup_loop seen (rem ∷ rems) =
    let skipped = popup_loop seen rems in
    let taken = popup_loop (rem.minutes ∷ seen) rems in
    if is_popup rem.method
    then if contains seen rem.minutes then skipped else rem.minutes ∷ taken
    else skipped

unfoldable pub popup_minutes_of : List Reminder → List ℤ
popup_minutes_of reminders = popup_loop [] reminders

-- `int(d.Minutes())`, which truncates towards zero.
unfoldable pub whole_minutes : ℤ → ℤ
whole_minutes (pos n) = pos (n / minute)
whole_minutes (negsuc n) = pos 0 -ℤ pos (suc n / minute)

unfoldable pub before_by : ℤ → ℤ → Trigger
before_by base minutes = record { at = base -ℤ minutes *ℤ pos minute; minutes = minutes }

-- The dates of a task; `kind`, a text of the notification, is left out.
unfoldable pub task_anchors : TaskRow → List (ℤ × Bool)
task_anchors task = elim task.start [
  | none ↦ elim task.due [ none ↦ [] | some d ↦ (d, true) ∷ [] ]
  | some s ↦ elim task.due [
    | none ↦ (s, false) ∷ []
    | some d ↦ if d == s then (s, false) ∷ [] else (s, false) ∷ (d, true) ∷ []
  ]
]

unfoldable pub related_only : Bool → List Reminder → List Reminder
related_only end [] = []
related_only end (rem ∷ rems) =
    let rest = related_only end rems in
    if (if related_to_end rem then end else not end) then rem ∷ rest else rest

unfoldable pub anchored_reminders : List Reminder → Bool → Bool → List Reminder
anchored_reminders reminders end single = if single then reminders else related_only end reminders

unfoldable pub is_single {ℓ} : {A : Type ℓ} → List A → Bool
is_single [] = false
is_single (x ∷ []) = true
is_single (x ∷ y ∷ rest) = false

-- The package time: midnight in the location of an instant's UTC date, and the clock time (as a text
-- that `AllDayClock` parses) on the day that lies that many days before an instant.
module _ (local_midnight : ℤ → ℤ) (clock_on : String → ℤ → ℤ → ℤ) where
  unfoldable pub all_day_default : UiSettings → ℤ → Trigger
  all_day_default s base =
      let at = clock_on s.all_day_reminder_time s.all_day_reminder_days_before base in
      record { at = at; minutes = whole_minutes (base -ℤ at) }

  unfoldable pub default_triggers : Bool → UiSettings → ℤ → List Trigger
  default_triggers all_day s base =
      if all_day
      then all_day_default s base ∷ []
      else if ltb_ℤ s.default_reminder_minutes (pos 0)
      then []
      else before_by base s.default_reminder_minutes ∷ []

  unfoldable pub triggers_at : Bool → UiSettings → ℤ → List ℤ → List Trigger
  triggers_at all_day s base [] =
      if all_day && not s.all_day_reminders then [] else default_triggers all_day s base
  triggers_at all_day s base (m ∷ ms) = map (before_by base) (m ∷ ms)

  unfoldable pub triggers_for : EventRow → UiSettings → List Trigger
  triggers_for ev s =
      triggers_at ev.all_day s (if ev.all_day then local_midnight ev.start else ev.start)
        (popup_minutes_of (reminders_from_maps ev.reminders))

  unfoldable pub anchor_triggers : TaskRow → UiSettings → Bool → ℤ × Bool → List (ℤ × Trigger)
  anchor_triggers task s single (at, end) =
      let base =
        if task.all_day then clock_on s.all_day_reminder_time (pos 0) (local_midnight at) else at in
      let reminders = reminders_from_maps task.reminders in
      elim (popup_minutes_of reminders) [
        | [] ↦ (at, record { at = base; minutes = pos 0 }) ∷ []
        | ◌∷◌ m ms ↦
            map (λ offset. (at, before_by base offset))
              (popup_minutes_of (anchored_reminders reminders end single))
      ]

  unfoldable pub concat_triggers :
      TaskRow → UiSettings → Bool → List (ℤ × Bool) → List (ℤ × Trigger)
  concat_triggers task s single [] = []
  concat_triggers task s single (a ∷ rest) =
      anchor_triggers task s single a ++ concat_triggers task s single rest

  unfoldable pub task_triggers_for : TaskRow → UiSettings → List (ℤ × Trigger)
  task_triggers_for task s =
      let anchors = task_anchors task in concat_triggers task s (is_single anchors) anchors

unfoldable pub due : Trigger → Bool → ℤ → ℤ → ℤ → Bool
due tr all_day start end now =
    if ltb_ℤ now tr.at
    then false
    else if all_day
    then ltb_ℤ (now -ℤ all_day_late) tr.at && ltb_ℤ now end
    else ltb_ℤ (now -ℤ start_grace) start

unfoldable pub task_due : Trigger → Bool → ℤ → Bool
task_due tr all_day now =
    if ltb_ℤ now tr.at
    then false
    else ltb_ℤ (now -ℤ (if all_day then all_day_late else start_grace)) tr.at

data Urgency : Type 0 where
  low normal critical : Urgency

unfoldable task_urgency : ℤ → Urgency
task_urgency priority =
    if leb_ℤ (pos 1) priority && leb_ℤ priority (pos 4)
    then critical
    else if leb_ℤ (pos 6) priority && leb_ℤ priority (pos 9)
    then low
    else normal
