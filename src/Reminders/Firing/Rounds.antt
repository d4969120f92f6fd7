-- ===== src/Reminders/Firing/Rounds.antt =====
-- That `Tick` of core/internal/reminders/engine.go fires a reminder once.
use dankcalendar.Base.{
  ℤ, String, Bool, true, false, List, [], ◌∷◌, ◌++◌, ◌≡◌, refl, sym, arith, contains, if◌then◌else◌,
  Dict, lookup-keep, Bool-cases, inl, inr,
}
use dankcalendar.Repo.Store.{EventRow, TaskRow}
use dankcalendar.Reminders.Triggers.{UiSettings}
use dankcalendar.Reminders.Firing.{Engine, Delivery, Ticked, tick}
use dankcalendar.Reminders.States.{StateKey, key_eq, ReminderState, States, in_window, state_map}
use dankcalendar.Reminders.Firing.Once.{
  has_fired, AllRecorded, true-false, contains-++, has_fired-fire_all, fire_all-silent,
  fire_all-records,
}

choice-records :
    (k : StateKey) (b : Bool) (t : Ticked) (e : Engine)
    → (contains t.fired k ≡ true → has_fired k t.engine.states ≡ true)
    → contains (if b then t else record { engine = e; fired = [] }).fired k ≡ true
    → has_fired k (if b then t else record { engine = e; fired = [] }).engine.states ≡ true
choice-records k true t e f h = f h
choice-records k false t e f h = absurd (true-false (sym h))

-- One call of `Tick`, with what it reads.
pub record Round : Type 0 where
  pub now : ℤ
  pub base : UiSettings
  pub resolved : Dict String UiSettings
  pub hidden : List String
  pub events : List EventRow
  pub tasks : List TaskRow
  pub deliveries : List Delivery

-- The occurrence is in the window of each round.
abbrev pub AllNear : StateKey → List Round → Type 0
AllNear k [] = Unit
AllNear k (r ∷ rs) = (in_window r.now k ≡ true) × AllNear k rs

has_fired-state_map :
    (k : StateKey) (now : ℤ) (states : States)
    → in_window now k ≡ true
    → has_fired k states ≡ true
    → has_fired k (state_map now states) ≡ true
unfolding state_map
has_fired-state_map k now states near h =
    ground (arith, lookup-keep {A = ReminderState} (in_window now) k states)

module _ (local_midnight : ℤ → ℤ) (clock_on : String → ℤ → ℤ → ℤ) where
  abbrev pub round : Round → Engine → Ticked
  round r e =
      tick local_midnight clock_on r.resolved r.hidden r.base r.now r.events r.tasks r.deliveries e

  -- All that fires in a series of rounds.
  abbrev pub rounds : List Round → Engine → List StateKey
  rounds [] e = []
  rounds (r ∷ rs) e = let t = round r e in t.fired ++ rounds rs t.engine

  round-stays :
      (k : StateKey) (r : Round) (e : Engine)
      → has_fired k e.states ≡ true
      → in_window r.now k ≡ true
      → (has_fired k (round r e).engine.states ≡ true) × (contains (round r e).fired k ≡ false)
  unfolding tick
  round-stays k r e h near = elim (Bool-cases r.base.reminders_enabled) [
    | inl f ↦ rw f (
      has_fired-fire_all k _ r.now r.deliveries _ e h,
      fire_all-silent k _ r.now r.deliveries _ e (has_fired-state_map k r.now e.states near h),
    )
    | inr f ↦ rw f (h, refl)
  ]

  round-records :
      (k : StateKey) (r : Round) (e : Engine)
      → AllRecorded r.deliveries
      → contains (round r e).fired k ≡ true
      → has_fired k (round r e).engine.states ≡ true
  unfolding tick
  round-records k r e a h =
      choice-records k r.base.reminders_enabled _ e
        (fire_all-records k (state_map r.now e.states) r.now r.deliveries _ e a) h

  rounds-silent :
      (k : StateKey) (rs : List Round) (e : Engine)
      → has_fired k e.states ≡ true
      → AllNear k rs
      → contains (rounds rs e) k ≡ false
  rounds-silent k [] e h near = refl
  rounds-silent k (r ∷ rs) e h near =
      let (stays, silent) = round-stays k r e h near.0 in
      rw (contains-++ k (round r e).fired (rounds rs (round r e).engine), silent)
        (rounds-silent k rs (round r e).engine stays near.1)

-- A reminder that fires in a call of `tick` whose deliveries are all recorded does not fire in any later
-- call of a series, if its occurrence lies, at the time of each of these calls, in the window for which
-- the states are read. The settings, the events, the tasks and the deliveries of those calls do not
-- matter.
pub fires_once :
    (local_midnight : ℤ → ℤ) (clock_on : String → ℤ → ℤ → ℤ) (k : StateKey) (r : Round) (e : Engine)
    (rs : List Round)
    → AllRecorded r.deliveries
    → contains (round local_midnight clock_on r e).fired k ≡ true
    → AllNear k rs
    → contains (rounds local_midnight clock_on rs (round local_midnight clock_on r e).engine) k
      ≡ false
fires_once local_midnight clock_on k r e rs a h near =
    rounds-silent local_midnight clock_on k rs _ (round-records local_midnight clock_on k r e a h)
      near
