-- ===== src/Reminders/States.antt =====
-- core/repo/reminders.go, and the states that core/internal/reminders/engine.go reads.
use dankcalendar.Base.{
  ℤ, pos, ap, ◌≡◌, ◌+ℤ◌, ◌*◌, ◌-ℤ◌, leb_ℤ, ltb_ℤ, String, Bool, not, ◌&&◌, Option, none, some, Eq,
  string_eq, int_eq, Dict, lookup, put, keep, nat_eq,
}
use dankcalendar.Reminders.Triggers.{minute}

-- `stateKey`.
pub record StateKey : Type 0 where
  pub calendar_id : String
  pub uid : String
  pub start : ℤ
  pub minutes : ℤ

abbrev same :
    (k j : StateKey)
    → k.calendar_id ≡ j.calendar_id
    → k.uid ≡ j.uid
    → k.start ≡ j.start
    → k.minutes ≡ j.minutes
    → k ≡ j
same k j c u s m i = record { calendar_id = c i; uid = u i; start = s i; minutes = m i }

instance unfoldable pub key_eq : Eq StateKey
key_eq = record {
  dec = λ k j. elim (string_eq.dec k.calendar_id j.calendar_id) [
    | no p ↦ no (λ e. p (ap (λ x. x.calendar_id) e))
    | yes c ↦ elim (string_eq.dec k.uid j.uid) [
      | no p ↦ no (λ e. p (ap (λ x. x.uid) e))
      | yes u ↦ elim (int_eq.dec k.start j.start) [
        | no p ↦ no (λ e. p (ap (λ x. x.start) e))
        | yes s ↦ elim (int_eq.dec k.minutes j.minutes) [
          | no p ↦ no (λ e. p (ap (λ x. x.minutes) e))
          | yes m ↦ yes (same k j c u s m)
        ]
      ]
    ]
  ];
}

-- A row of the reminder states, less its key.
pub record ReminderState : Type 0 where
  pub fired_at : Option ℤ
  pub snoozed_until : Option ℤ

abbrev pub States : Type 0
States = Dict StateKey ReminderState

unfoldable pub set_reminder_fired : StateKey → ℤ → States → States
set_reminder_fired key fired_at states =
    put key (record { fired_at = some fired_at; snoozed_until = none }) states

unfoldable pub snooze_reminder : StateKey → ℤ → States → States
snooze_reminder key until states = elim (lookup key states) [
  | none ↦ put key (record { fired_at = none; snoozed_until = some until }) states
  | some st ↦ put key (record st { snoozed_until = some until }) states
]

unfoldable pub prune_reminder_states : ℤ → States → States
prune_reminder_states before states = keep (λ key. not (ltb_ℤ key.start before)) states

-- The states that `stateMap` reads: those of occurrences near an instant.
abbrev pub lookahead : ℤ
lookahead = pos (28 * 24 * 60 * minute)

abbrev pub state_floor : ℤ
state_floor = pos (35 * 24 * 60 * minute)

abbrev pub in_window : ℤ → StateKey → Bool
in_window now key = leb_ℤ (now -ℤ state_floor) key.start && leb_ℤ key.start (now +ℤ lookahead)

unfoldable pub state_map : ℤ → States → States
state_map now states = keep (in_window now) states
