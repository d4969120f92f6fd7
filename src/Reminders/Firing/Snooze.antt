-- ===== src/Reminders/Firing/Snooze.antt =====
-- What snoozing does to a reminder of core/internal/reminders/engine.go, and what `Upcoming` lists.
use dankcalendar.Base.{
  ℤ, pos, ◌+ℤ◌, ◌*ℤ◌, ◌<ℤ◌, ltb_ℤ, ℕ, Bool, true, false, not, ◌&&◌, Option, none, some, ◌≡◌, refl,
  arith, ◌==◌, if◌then◌else◌, lookup, put, lookup-put, lookup-keep, nat_eq,
}
use dankcalendar.Reminders.Triggers.{UiSettings, minute, due, task_due}
use dankcalendar.Reminders.Firing.{
  FiredReminder, Engine, Candidate, subject_due, snooze_stands, fires, upcoming, snooze,
  handle_action, settings_for,
}
use dankcalendar.Reminders.States.{
  StateKey, key_eq, ReminderState, States, snooze_reminder, in_window, state_map,
}

abbrev pub snoozed_until : StateKey → States → Option ℤ
snoozed_until k states = elim (lookup k states) [ none ↦ none | some st ↦ st.snoozed_until ]

module _ (k : StateKey) (until : ℤ) (states : States) where
  abbrev snoozed_row : Option ReminderState → ReminderState
  snoozed_row none = record { fired_at = none; snoozed_until = some until }
  snoozed_row (some st) = record st { snoozed_until = some until }

  abbrev write_snooze : Option ReminderState → States
  write_snooze none = put k (snoozed_row none) states
  write_snooze (some st) = put k (snoozed_row (some st)) states

  write_snooze_lem :
      (found : Option ReminderState) (other : StateKey)
      → lookup other (write_snooze found)
        ≡ (if k == other then some (snoozed_row found) else lookup other states)
  write_snooze_lem none other = lookup-put k (snoozed_row none) other states
  write_snooze_lem (some st) other = lookup-put k (snoozed_row (some st)) other states

  snoozed_row_lem : (found : Option ReminderState) → (snoozed_row found).snoozed_until ≡ some until
  snoozed_row_lem none = refl
  snoozed_row_lem (some st) = refl

  fires-snooze_reminder :
      (c : Candidate) (t : ℤ)
      → fires (snooze_reminder k until states) t c ≡ (
          if k == c.key then not (ltb_ℤ t until) && snooze_stands c.subject t else fires states t c)
  unfolding fires snooze_reminder
  fires-snooze_reminder c t =
      ground (arith, write_snooze_lem (lookup k states) c.key, snoozed_row_lem (lookup k states))

-- `Tick` fires by the states of the occurrences in the window, and elsewhere by the trigger alone.
fires-state_map :
    (states : States) (t : ℤ) (c : Candidate)
    → fires (state_map t states) t c
      ≡ (if in_window t c.key then fires states t c else subject_due c.trigger c.subject t)
unfolding fires state_map
fires-state_map states t c =
    ground (arith, lookup-keep {A = ReminderState} (in_window t) c.key states)

module _ (base : UiSettings) (resolved : Option UiSettings) (now : ℤ) where
  -- When the snooze ends.
  abbrev pub snooze_end : ℤ
  snooze_end = now +ℤ (settings_for base resolved).snooze_minutes *ℤ pos minute

  handled :
      (saved : Bool) (id : ℕ) (e : Engine) (fired : FiredReminder)
      → lookup id e.pending ≡ some fired
      → (handle_action base resolved saved now id snooze e).states
        ≡ (if saved then snooze_reminder fired.key snooze_end e.states else e.states)
  unfolding handle_action
  handled true id e fired h = rw (handle_action, h) refl
  handled false id e fired h = rw (handle_action, h) refl

  fires-handled :
      (saved : Bool) (k : StateKey) (states : States) (c : Candidate) (t : ℤ)
      → fires (state_map t (if saved then snooze_reminder k snooze_end states else states)) t c ≡ (
          if saved && (k == c.key && in_window t c.key)
          then not (ltb_ℤ t snooze_end) && snooze_stands c.subject t
          else fires (state_map t states) t c)
  fires-handled true k states c t =
      rw
        (
          fires-state_map (snooze_reminder k snooze_end states) t c,
          fires-state_map states t c,
          fires-snooze_reminder k snooze_end states c t,
        )
        (ground arith)
  fires-handled false k states c t = refl

pub snooze_defers :
    (base : UiSettings) (resolved : Option UiSettings) (saved : Bool) (now : ℤ) (id : ℕ)
    (e : Engine) (fired : FiredReminder)
    → lookup id e.pending ≡ some fired
    → (c : Candidate) (t : ℤ)
    → fires (state_map t (handle_action base resolved saved now id snooze e).states) t c ≡ (
        if saved && (fired.key == c.key && in_window t c.key)
        then not (ltb_ℤ t (snooze_end base resolved now)) && snooze_stands c.subject t
        else fires (state_map t e.states) t c)
snooze_defers base resolved saved now id e fired h c t =
    rw (handled base resolved now saved id e fired h)
      (fires-handled base resolved now saved fired.key e.states c t)

-- What `upcoming` lists triggers strictly after `now`, and `Tick` does not fire it at `now`: no
-- reminder is both pending and due.
upcoming_later :
    (states : States) (now : ℤ) (c : Candidate) (at : ℤ) (snoozed : Bool)
    → upcoming states now c ≡ some (at, snoozed)
    → (now <ℤ at) × (fires states now c ≡ false)
unfolding upcoming fires subject_due due task_due
upcoming_later states now c at snoozed h = ground arith
