-- ===== src/Sync/Schedule.antt =====
-- core/internal/sync/engine.go: when each account is synchronised.
pub mod Wakes
use dankcalendar.Base.{
  ℤ, pos, ◌+ℤ◌, ◌-ℤ◌, ltb_ℤ, leb_ℤ, max_ℤ, ◌*◌, ℕ, String, Bool, true, false, not, List, [], ◌∷◌,
  Option, none, some, ◌==◌, contains, string_eq, if◌then◌else◌, Dict, lookup, put, keep,
}
use dankcalendar.Repo.Store.{
  ProviderError, Error, not_found, not_singular, constraint, database, provider, refused, wrapped,
}

abbrev pub second : ℕ
second = 1000000000

abbrev pub min_interval : ℤ
min_interval = pos (60 * second)

abbrev pub max_wake : ℤ
max_wake = pos (3600 * second)

abbrev pub keyring_locked_retry : ℤ
keyring_locked_retry = min_interval

-- The state of `Engine` that scheduling reads and writes; `interval_fn` is what the function answers.
pub record Engine : Type 0 where
  pub interval : ℤ
  pub interval_fn : Option ℤ
  pub next_due : Dict String ℤ
  pub keyring_locked : List String

-- What `errors.As` and `errors.Is` find in a chain of errors.
unfoldable pub cause : Error → Option ProviderError
cause not_found = none
cause not_singular = none
cause (refused text) = none
cause constraint = none
cause (database text) = none
cause (provider e) = some e
cause (wrapped text e) = cause e

unfoldable pub deferred_retry_after : Option Error → ℤ
deferred_retry_after none = pos 0
deferred_retry_after (some e) = elim (cause e) [
  | none ↦ pos 0
  | some p ↦ elim p.retry_after [ none ↦ pos 0 | some d ↦ d ]
]

unfoldable pub is_locked : Option Error → Bool
is_locked none = false
is_locked (some e) = elim (cause e) [ none ↦ false | some p ↦ p.locked ]

unfoldable pub is_reauth : Option Error → Bool
is_reauth none = false
is_reauth (some e) = elim (cause e) [ none ↦ false | some p ↦ p.reauth ]

-- The loop of `untilNext`.
unfoldable pub soonest_of : ℤ → ℤ → Dict String ℤ → ℤ
soonest_of now soonest [] = soonest
soonest_of now soonest ((id, due) ∷ rest) =
    let d = due -ℤ now in
    let later = soonest_of now (if ltb_ℤ d soonest then d else soonest) rest in
    if leb_ℤ d (pos 0) then pos 0 else later

unfoldable pub until_next : ℤ → Engine → ℤ
until_next now e = soonest_of now max_wake e.next_due

unfoldable pub due : ℤ → String → Engine → Bool
due now account_id e = elim (lookup account_id e.next_due) [
  | none ↦ true
  | some at ↦ not (ltb_ℤ now at)
]

unfoldable pub base_interval : Engine → ℤ
base_interval e = elim e.interval_fn [
  | none ↦ e.interval
  | some v ↦ if ltb_ℤ (pos 0) v then v else e.interval
]

-- The interval of `schedule`, with its floor.
unfoldable pub chosen_interval : Engine → ℤ → ℤ
chosen_interval e retry_after =
    let interval = if ltb_ℤ (pos 0) retry_after then retry_after else base_interval e in
    if ltb_ℤ interval min_interval then min_interval else interval

unfoldable pub schedule : ℤ → String → ℤ → Engine → Engine
schedule now account_id retry_after e = record e {
  next_due = put account_id (now +ℤ chosen_interval e retry_after) e.next_due;
}

unfoldable pub without : (String → Bool) → List String → List String
without p [] = []
without p (id ∷ ids) = let rest = without p ids in if p id then rest else id ∷ rest

-- A locked keyring is noted only for an account with an entry, so both go together.
unfoldable pub prune_schedule : List String → Engine → Engine
prune_schedule live e = record e {
  next_due = keep (contains live) e.next_due;
  keyring_locked =
      without
        (λ id. elim (lookup id e.next_due) [ none ↦ false | some at ↦ not (contains live id) ])
        e.keyring_locked;
}

-- With whether the change is published.
unfoldable pub record_keyring_locked : String → Bool → Engine → Engine × Bool
record_keyring_locked account_id locked e =
    let was = contains e.keyring_locked account_id in
    let others = without (λ id. id == account_id) e.keyring_locked in
    (
      record e { keyring_locked = if locked then account_id ∷ others else others },
      if was then not locked else locked,
    )

-- `SyncAccount`, after `syncAccount` has returned a delay and an error.
unfoldable pub after_sync : ℤ → String → ℤ → Option Error → Engine → Engine
after_sync now account_id retry_after failure e =
    let hinted = max_ℤ retry_after (deferred_retry_after failure) in
    let locked = is_locked failure in
    schedule now account_id (if locked then keyring_locked_retry else hinted)
      (record_keyring_locked account_id locked e).0
