-- ===== src/Sync/Schedule/Wakes.antt =====
-- When the loop of core/internal/sync/engine.go wakes, and what is due then.
use dankcalendar.Base.{
  ℤ, pos, ◌+ℤ◌, ◌-ℤ◌, ◌≤ℤ◌, leb_ℤ, max_ℤ, int_laws, String, Bool, true, false, List, [], ◌∷◌,
  Option, none, some, ◌≡◌, ◌≢◌, refl, sym, ◌⊎◌, inl, inr, arith, ◌==◌, contains, string_eq,
  if◌then◌else◌, Dict, lookup, lookup-put, lookup-keep, Bool-cases,
}
use dankcalendar.Repo.Store.{Error}
use dankcalendar.Sync.Schedule.{
  Engine, min_interval, max_wake, keyring_locked_retry, deferred_retry_after, is_locked, soonest_of,
  until_next, due, chosen_interval, schedule, prune_schedule, record_keyring_locked, after_sync,
}

-- The delay of the loop is not negative and not above the cap.
soonest_of-bounds :
    (now s : ℤ) (d : Dict String ℤ)
    → pos 0 ≤ℤ s
    → (pos 0 ≤ℤ soonest_of now s d) × (soonest_of now s d ≤ℤ s)
unfolding soonest_of
soonest_of-bounds now s [] h = (h, omega int_laws)
soonest_of-bounds now s ((id, at) ∷ rest) h =
    ground (arith, soonest_of-bounds now (at -ℤ now) rest, soonest_of-bounds now s rest)

soonest_of-entry :
    (now s : ℤ) (id : String) (at : ℤ) (d : Dict String ℤ)
    → pos 0 ≤ℤ s
    → lookup id d ≡ some at
    → soonest_of now s d ≤ℤ max_ℤ (pos 0) (at -ℤ now)
unfolding soonest_of lookup
soonest_of-entry now s id at [] p h = absurd (ground arith)
soonest_of-entry now s id at ((key, t) ∷ rest) p h = ground (
  arith,
  soonest_of-entry now s id at rest,
  soonest_of-entry now (t -ℤ now) id at rest,
  soonest_of-bounds now (t -ℤ now) rest,
  soonest_of-bounds now s rest,
)

-- Some entry has come due.
abbrev pub any_due : ℤ → Dict String ℤ → Bool
any_due now [] = false
any_due now ((id, at) ∷ rest) = if leb_ℤ at now then true else any_due now rest

any_due-head :
    (t : ℤ) (id : String) (at : ℤ) (rest : Dict String ℤ)
    → at ≤ℤ t
    → any_due t ((id, at) ∷ rest) ≡ true
any_due-head t id at rest h = ground arith

any_due-tail :
    (t : ℤ) (id : String) (at : ℤ) (rest : Dict String ℤ)
    → any_due t rest ≡ true
    → any_due t ((id, at) ∷ rest) ≡ true
any_due-tail t id at rest h = ground arith

soonest_of-cases :
    (now s : ℤ) (id : String) (at : ℤ) (rest : Dict String ℤ) (v : ℤ)
    → soonest_of now s ((id, at) ∷ rest) ≡ v
    → ((v ≡ pos 0) × (at -ℤ now ≤ℤ pos 0))
      ⊎ (soonest_of now (at -ℤ now) rest ≡ v)
      ⊎ (soonest_of now s rest ≡ v)
unfolding soonest_of
soonest_of-cases now s id at rest v e = ground arith

soonest_of-any_due :
    (now s : ℤ) (d : Dict String ℤ) (v : ℤ)
    → soonest_of now s d ≡ v
    → (v ≡ s) ⊎ (any_due (now +ℤ v) d ≡ true)
soonest_of-any_due now s [] v e = unfold soonest_of in inl (sym e)
soonest_of-any_due now s ((id, at) ∷ rest) v e = elim (soonest_of-cases now s id at rest v e) [
  | inl (zero, past) ↦ inr (any_due-head (now +ℤ v) id at rest (rw zero (omega (int_laws, past))))
  | inr (inl k) ↦ elim (soonest_of-any_due now (at -ℤ now) rest v k) [
    | inl same ↦ inr (any_due-head (now +ℤ v) id at rest (rw same (omega int_laws)))
    | inr later ↦ inr (any_due-tail (now +ℤ v) id at rest later)
  ]
  | inr (inr k) ↦ elim (soonest_of-any_due now s rest v k) [
    | inl same ↦ inl same
    | inr later ↦ inr (any_due-tail (now +ℤ v) id at rest later)
  ]
]

-- Where an account has a due time, the loop parks for a delay from nothing to the cap of an hour, it
-- wakes no later than that account comes due, unless it is due already, and if it wakes before the
-- cap then some account is due at that moment.
pub until_next_wakes :
    (now : ℤ) (e : Engine) (id : String) (at : ℤ)
    → lookup id e.next_due ≡ some at
    → (pos 0 ≤ℤ until_next now e)
      × (until_next now e ≤ℤ max_wake)
      × (until_next now e ≤ℤ max_ℤ (pos 0) (at -ℤ now))
      × ((until_next now e ≡ max_wake) ⊎ (any_due (now +ℤ until_next now e) e.next_due ≡ true))
unfolding until_next
until_next_wakes now e id at h =
    let bounds = soonest_of-bounds now max_wake e.next_due (omega arith) in
    (
      bounds.0,
      bounds.1,
      soonest_of-entry now max_wake id at e.next_due (omega arith) h,
      soonest_of-any_due now max_wake e.next_due _ refl,
    )

interval_floor : (e : Engine) (r : ℤ) → min_interval ≤ℤ chosen_interval e r
unfolding chosen_interval
interval_floor e r = ground arith

due-schedule :
    (now : ℤ) (id : String) (r : ℤ) (e : Engine) (t : ℤ)
    → due t id (schedule now id r e) ≡ true
    → now +ℤ chosen_interval e r ≤ℤ t
unfolding due schedule
due-schedule now id r e t h =
    ground (arith, lookup-put id (now +ℤ chosen_interval e r) id e.next_due)

interval_hint : (e : Engine) (r : ℤ) → r ≤ℤ chosen_interval e r
unfolding chosen_interval
interval_hint e r = ground arith

hints :
    (failure : Option Error) (retry_after : ℤ)
    → is_locked failure ≡ false
    → let r =
        if is_locked failure
        then keyring_locked_retry
        else max_ℤ retry_after (deferred_retry_after failure) in
      (retry_after ≤ℤ r) × (deferred_retry_after failure ≤ℤ r)
hints failure retry_after k = ground arith

interval_least : (e : Engine) → chosen_interval e min_interval ≡ min_interval
unfolding chosen_interval
interval_least e = refl

lookup-schedule :
    (now : ℤ) (id : String) (r : ℤ) (e : Engine) (other : String)
    → lookup other (schedule now id r e).next_due
      ≡ (if id == other then some (now +ℤ chosen_interval e r) else lookup other e.next_due)
unfolding schedule
lookup-schedule now id r e other = lookup-put id (now +ℤ chosen_interval e r) other e.next_due

-- If an account is due at `t` after a synchronisation that ended at `now`, whatever it returned, then a
-- minute has passed; and either its keyring was locked and it became due after exactly that minute,
-- or both delays have passed that the provider asked for, with the result and with the error. The time
-- of no other account changes.
pub after_sync_defers :
    (now : ℤ) (id : String) (retry_after : ℤ) (failure : Option Error) (e : Engine) (t : ℤ)
    (other : String)
    → due t id (after_sync now id retry_after failure e) ≡ true
    → other ≢ id
    → let e' = after_sync now id retry_after failure e in
      (now +ℤ min_interval ≤ℤ t)
      × (((is_locked failure ≡ true) × (lookup id e'.next_due ≡ some (now +ℤ min_interval)))
          ⊎ ((now +ℤ retry_after ≤ℤ t) × (now +ℤ deferred_retry_after failure ≤ℤ t)))
      × (lookup other e'.next_due ≡ lookup other e.next_due)
unfolding after_sync record_keyring_locked
after_sync_defers now id retry_after failure e t other h differ =
    let r =
      if is_locked failure
      then keyring_locked_retry
      else max_ℤ retry_after (deferred_retry_after failure) in
    let e' = (record_keyring_locked id (is_locked failure) e).0 in
    let late = due-schedule now id r e' t h in
    let hint = interval_hint e' r in
    (
      omega (int_laws, interval_floor e' r, late),
      elim (Bool-cases (is_locked failure)) [
        | inl k ↦ inl (
          k,
          ground (arith, k, lookup-schedule now id keyring_locked_retry e' id, interval_least e'),
        )
        | inr k ↦
            let (one, two) = hints failure retry_after k in
            inr (omega (int_laws, one, hint, late), omega (int_laws, two, hint, late))
      ],
      ground (arith, lookup-schedule now id r e' other),
    )

-- After `prune_schedule` exactly the accounts that are listed keep their times.
prune_schedule-lookup :
    (live : List String) (e : Engine) (id : String)
    → lookup id (prune_schedule live e).next_due
      ≡ (if contains live id then lookup id e.next_due else none)
unfolding prune_schedule
prune_schedule-lookup live e id = lookup-keep (contains live) id e.next_due
