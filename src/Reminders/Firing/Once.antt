-- ===== src/Reminders/Firing/Once.antt =====
-- What the loops of `Tick` of core/internal/reminders/engine.go record of the reminders that fire.
use dankcalendar.Base.{
  ℤ, Bool, true, false, ◌||◌, List, [], ◌∷◌, ◌++◌, none, some, ◌≡◌, refl, sym, subst, ◌∙◌, arith,
  ◌==◌, contains, if◌then◌else◌, lookup, lookup-put, Bool-cases, inl, inr,
}
use dankcalendar.Reminders.Firing.{
  Engine, Candidate, fires, Delivery, undelivered, delivered, Ticked, fire, fire_all,
}
use dankcalendar.Reminders.States.{StateKey, key_eq, States, set_reminder_fired}

-- The reminder is on record, and not snoozed.
abbrev pub has_fired : StateKey → States → Bool
has_fired k states = elim (lookup k states) [
  | none ↦ false
  | some st ↦ elim st.snoozed_until [ none ↦ true | some until ↦ false ]
]

abbrev pub AllRecorded : List Delivery → Type 0
AllRecorded [] = Unit
AllRecorded (undelivered ∷ ds) = AllRecorded ds
AllRecorded (delivered id recorded ∷ ds) = (recorded ≡ true) × AllRecorded ds

pub true-false : true ≡ false → ⊥
true-false e = ground arith

fires-has_fired :
    (states : States) (now : ℤ) (c : Candidate)
    → has_fired c.key states ≡ true
    → fires states now c ≡ false
unfolding fires
fires-has_fired states now c h = ground arith

has_fired-set :
    (k j : StateKey) (now : ℤ) (states : States)
    → has_fired k (set_reminder_fired j now states) ≡ (j == k || has_fired k states)
unfolding set_reminder_fired
has_fired-set k j now states =
    ground (arith, lookup-put j (record { fired_at = some now; snoozed_until = none }) k states)

has_fired-fire :
    (k : StateKey) (c : Candidate) (now : ℤ) (d : Delivery) (e : Engine)
    → has_fired k e.states ≡ true
    → has_fired k (fire c now d e).engine.states ≡ true
unfolding fire
has_fired-fire k c now undelivered e h = h
has_fired-fire k c now (delivered id true) e h =
    rw (has_fired-set k c.key now e.states, h) (ground arith)
has_fired-fire k c now (delivered id false) e h = h

pub has_fired-fire_all :
    (k : StateKey) (states : States) (now : ℤ) (ds : List Delivery) (cs : List Candidate)
    (e : Engine)
    → has_fired k e.states ≡ true
    → has_fired k (fire_all states now ds cs e).engine.states ≡ true
unfolding fire_all
has_fired-fire_all k states now ds [] e h = h
has_fired-fire_all k states now [] (c ∷ cs) e h = h
has_fired-fire_all k states now (d ∷ ds) (c ∷ cs) e h = elim (Bool-cases (fires states now c)) [
  | inl f ↦ rw f (has_fired-fire_all k states now ds cs _ (has_fired-fire k c now d e h))
  | inr f ↦ rw f (has_fired-fire_all k states now (d ∷ ds) cs e h)
]

pub contains-++ :
    (k : StateKey) (xs ys : List StateKey)
    → contains (xs ++ ys) k ≡ (contains xs k || contains ys k)
contains-++ k [] ys = refl
contains-++ k (x ∷ xs) ys = ground (arith, contains-++ k xs ys)

fire-key :
    (k : StateKey) (c : Candidate) (now : ℤ) (d : Delivery) (e : Engine)
    → contains (fire c now d e).fired k ≡ true
    → k ≡ c.key
unfolding fire
fire-key k c now undelivered e h = absurd (ground arith)
fire-key k c now (delivered id recorded) e h = ground arith

fire-records :
    (k : StateKey) (c : Candidate) (now : ℤ) (d : Delivery) (ds : List Delivery) (e : Engine)
    → AllRecorded (d ∷ ds)
    → contains (fire c now d e).fired k ≡ true
    → has_fired k (fire c now d e).engine.states ≡ true
unfolding fire
fire-records k c now undelivered ds e r h = absurd (ground arith)
fire-records k c now (delivered id recorded) ds e r h =
    rw r.0 (ground (arith, has_fired-set k c.key now e.states))

module _ (k : StateKey) (e : Engine) where
  rest_fired :
      (xs ys : List StateKey) (b : Bool) (q : Ticked)
      → b ≡ true
      → contains xs k ≡ false
      → contains (if b then record { engine = e; fired = xs ++ ys } else q).fired k ≡ true
      → contains ys k ≡ true
  rest_fired xs ys true q f x h = ground (arith, contains-++ k xs ys)
  rest_fired xs ys false q f x h = absurd (true-false (sym f))

passed_fired :
    (k : StateKey) (b : Bool) (p q : Ticked)
    → b ≡ false
    → contains (if b then p else q).fired k ≡ true
    → contains q.fired k ≡ true
passed_fired k true p q f h = absurd (true-false f)
passed_fired k false p q f h = h

AllRecorded-tail : (d : Delivery) (ds : List Delivery) → AllRecorded (d ∷ ds) → AllRecorded ds
AllRecorded-tail undelivered ds r = r
AllRecorded-tail (delivered id recorded) ds r = r.1

-- A reminder that is on record does not fire.
pub fire_all-silent :
    (k : StateKey) (states : States) (now : ℤ) (ds : List Delivery) (cs : List Candidate)
    (e : Engine)
    → has_fired k states ≡ true
    → contains (fire_all states now ds cs e).fired k ≡ false
unfolding fire_all
fire_all-silent k states now ds [] e h = refl
fire_all-silent k states now [] (c ∷ cs) e h = refl
fire_all-silent k states now (d ∷ ds) (c ∷ cs) e h = elim (Bool-cases (fires states now c)) [
  | inl f ↦
      let t = fire c now d e in
      rw
        (
          f,
          contains-++ k t.fired (fire_all states now ds cs t.engine).fired,
          fire_all-silent k states now ds cs t.engine h,
        )
        (elim (Bool-cases (contains t.fired k)) [
          | inl x ↦ absurd (
              true-false (
                sym f
                ∙ fires-has_fired states now c
                    (subst (λ j. has_fired j states ≡ true) (fire-key k c now d e x) h)))
          | inr x ↦ rw x refl
        ])
  | inr f ↦ rw f (fire_all-silent k states now (d ∷ ds) cs e h)
]

-- What fires is on record afterwards.
pub fire_all-records :
    (k : StateKey) (states : States) (now : ℤ) (ds : List Delivery) (cs : List Candidate)
    (e : Engine)
    → AllRecorded ds
    → contains (fire_all states now ds cs e).fired k ≡ true
    → has_fired k (fire_all states now ds cs e).engine.states ≡ true
unfolding fire_all
fire_all-records k states now ds [] e r h = absurd (ground arith)
fire_all-records k states now [] (c ∷ cs) e r h = absurd (ground arith)
fire_all-records k states now (d ∷ ds) (c ∷ cs) e r h = elim (Bool-cases (fires states now c)) [
  | inl f ↦
      let t = fire c now d e in
      rw f (elim (Bool-cases (contains t.fired k)) [
        | inl x ↦ has_fired-fire_all k states now ds cs t.engine (fire-records k c now d ds e r x)
        | inr x ↦ fire_all-records k states now ds cs t.engine (AllRecorded-tail d ds r) (
            rest_fired k (fire_all states now ds cs t.engine).engine t.fired
              (fire_all states now ds cs t.engine).fired (fires states now c)
              (fire_all states now (d ∷ ds) cs e) f x h)
      ])
  | inr f ↦
      rw f (
        fire_all-records k states now (d ∷ ds) cs e r (passed_fired k (fires states now c) _ _ f h))
]
