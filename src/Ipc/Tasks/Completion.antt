-- ===== src/Ipc/Tasks/Completion.antt =====
-- What completing a task makes of it (`handleTaskComplete` of core/internal/ipc/tasks.go).
use dankcalendar.Base.{
  ℤ, pos, ◌+ℤ◌, ◌-ℤ◌, String, Bool, true, false, List, is_empty, Option, none, some, if◌then◌else◌,
  ◌≡◌, refl, ap, subst, ◌⊎◌, inl, inr, Bool-cases, arith, int_laws, int_eq,
}
use dankcalendar.Calendar.Types.{Recurrence, Task, needs_action, completed, zero_time, is_zero}
use dankcalendar.Recurrence.{Library, Series, advance, kept_lines, location}
use dankcalendar.Ipc.Advance.{
  reopened, finished, base_of, series_of_task, advanced_to, advance_recurring_task,
  advanced_or_finished, completed_task,
}

moved_base : (base next : ℤ) → base +ℤ (next -ℤ base) ≡ next
moved_base base next = omega int_laws

span_kept : (a b d : ℤ) → (b +ℤ d) -ℤ (a +ℤ d) ≡ b -ℤ a
span_kept a b d = omega int_laws

abbrev an_occurrence : ℤ → List String → Option (ℤ × List String)
an_occurrence n rules = some (n, rules)

abbrev occurrence_of : Option (ℤ × List String) → ℤ
occurrence_of none = zero_time
occurrence_of (some (n, rules)) = n

past_guards :
    (a b : Bool) (n : ℤ) (rules : List String) (x : ℤ × List String)
    → (if a then none else if b then none else if is_zero n then none else an_occurrence n rules)
      ≡ some x
    → is_zero x.0 ≡ false
past_guards true b n rules x h = absurd (ground arith)
past_guards false true n rules x h = absurd (ground arith)
past_guards false false n rules x h = elim (Bool-cases (is_zero n)) [
  | inl e ↦ absurd (ground arith)
  | inr e ↦ subst (λ n. is_zero n ≡ false) (ap occurrence_of (rw e at h)) e
]

abbrev later : ℤ → ℤ → ℤ
later delta t = if is_zero t then t else t +ℤ delta

abbrev first_set : ℤ → ℤ → ℤ
first_set s d = if is_zero s then d else s

anchored_at :
    (s d next : ℤ)
    → is_zero (first_set s d) ≡ false
    → is_zero next ≡ false
    → first_set (later (next -ℤ first_set s d) s) (later (next -ℤ first_set s d) d) ≡ next
anchored_at s d next b n = elim (Bool-cases (is_zero s)) [
  | inl e ↦ let due_set : is_zero d ≡ false = rw e at b in rw (e, e, due_set) (moved_base d next)
  | inr e ↦ rw (e, moved_base s next, n) refl
]

later-zero : (delta t : ℤ) → is_zero t ≡ true → later delta t ≡ t
later-zero delta t h = rw h refl

later_span :
    (delta s d : ℤ)
    → is_zero s ≡ false
    → is_zero d ≡ false
    → later delta d -ℤ later delta s ≡ d -ℤ s
later_span delta s d a b = rw (a, b) (span_kept s d delta)

module _ (lib : Library) (utc : lib.Location) where
  -- The task is open at the next occurrence.
  pub record Moved (t t' : Task) : Type 0 where
    pub recurrence : Recurrence
    pub next : ℤ
    pub rules : List String
    pub recurs : t.recurrence ≡ some recurrence
    pub follows : advance lib (series_of_task lib utc t recurrence) ≡ some (next, rules)
    pub anchored : base_of lib utc t' ≡ next
    pub span :
        is_zero t.start ≡ false → is_zero t.due ≡ false → t'.due -ℤ t'.start ≡ t.due -ℤ t.start
    pub unset_start : is_zero t.start ≡ true → t'.start ≡ t.start
    pub unset_due : is_zero t.due ≡ true → t'.due ≡ t.due
    pub status : t'.status ≡ some needs_action
    pub percent : t'.percent_complete ≡ pos 0
    pub completed_at : t'.completed ≡ zero_time
    pub rebased : t'.recurrence ≡ some (record recurrence { rrule = rules })

  -- The task is done, and otherwise as it was.
  pub record Closed (now : ℤ) (t t' : Task) : Type 0 where
    pub status : t'.status ≡ some completed
    pub percent : t'.percent_complete ≡ pos 100
    pub completed_at : t'.completed ≡ now
    pub times : (t'.start ≡ t.start) × (t'.due ≡ t.due)
    pub recurrence : t'.recurrence ≡ t.recurrence

  -- There is no next occurrence to move to.
  abbrev pub StaysPut : Task → Option Recurrence → Type 0
  StaysPut t none = Unit
  StaysPut t (some rec) =
      (is_empty rec.rrule ≡ true)
      ⊎ (is_zero (base_of lib utc t) ≡ true)
      ⊎ (advance lib (series_of_task lib utc t rec) ≡ none)

  finished-Closed : (now : ℤ) (t : Task) → Closed now t (finished now t)
  unfolding finished
  finished-Closed now t = record {
    status = refl;
    percent = refl;
    completed_at = refl;
    times = (refl, refl);
    recurrence = refl;
  }

  advance-nonzero :
      (s : Series lib) (next : ℤ) (rules : List String)
      → advance lib s ≡ some (next, rules)
      → is_zero next ≡ false
  unfolding advance
  advance-nonzero s next rules h =
      past_guards (is_empty s.rrule) (is_empty (kept_lines lib s.start (location lib s) s.rrule).1)
        _ _ (next, rules) h

  advanced_to-Moved :
      (now : ℤ) (t : Task) (rec : Recurrence) (o : Option (ℤ × List String))
      → t.recurrence ≡ some rec
      → is_zero (base_of lib utc t) ≡ false
      → advance lib (series_of_task lib utc t rec) ≡ o
      → Moved t (advanced_or_finished lib utc now t (advanced_to lib utc t rec o))
        ⊎ (Closed now t (advanced_or_finished lib utc now t (advanced_to lib utc t rec o))
            × (o ≡ none))
  unfolding reopened base_of
  advanced_to-Moved now t rec none r b e = inr (finished-Closed now t, refl)
  advanced_to-Moved now t rec (some (next, rules)) r b e = inl (record {
    recurrence = rec;
    next = next;
    rules = rules;
    recurs = r;
    follows = e;
    anchored = anchored_at t.start t.due next b (advance-nonzero _ next rules e);
    span = later_span _ t.start t.due;
    unset_start = later-zero _ t.start;
    unset_due = later-zero _ t.due;
    status = refl;
    percent = refl;
    completed_at = refl;
    rebased = refl;
  })

  put_by_advance :
      (now : ℤ) (t t' : Task) (rec : Recurrence)
      → Moved t t' ⊎ (Closed now t t' × (advance lib (series_of_task lib utc t rec) ≡ none))
      → Moved t t' ⊎ (Closed now t t' × StaysPut t (some rec))
  put_by_advance now t t' rec (inl m) = inl m
  put_by_advance now t t' rec (inr (c, e)) = inr (c, inr (inr e))

  recurring-Moved :
      (now : ℤ) (t : Task) (o : Option Recurrence)
      → t.recurrence ≡ o
      → Moved t (advanced_or_finished lib utc now t (advance_recurring_task lib utc t o))
        ⊎ (Closed now t (advanced_or_finished lib utc now t (advance_recurring_task lib utc t o))
            × StaysPut t o)
  unfolding advance_recurring_task
  recurring-Moved now t none r = inr (finished-Closed now t, tt)
  recurring-Moved now t (some rec) r = elim (Bool-cases (is_empty rec.rrule)) [
    | inl e ↦ rw e (inr (finished-Closed now t, inl refl))
    | inr e ↦ elim (Bool-cases (is_zero (base_of lib utc t))) [
      | inl z ↦ rw (e, z) (inr (finished-Closed now t, inr (inl refl)))
      | inr z ↦ put_by_advance now t _ rec (rw (e, z) (advanced_to-Moved now t rec _ r z refl))
    ]
  ]

  -- A task that the user completes is open again at the next occurrence that `Advance` gives, or it is
  -- completed now. It is completed only where completing does not advance the tasks of the account, or
  -- where the task has no recurrence, no rule, neither start nor due time, or no next occurrence. A
  -- moved task has the occurrence as its start, or as its due time where there is no start; the time
  -- between start and due is kept, nothing of it is done, and its rules are those of `Advance`. A
  -- completed one is completed in full, with its times and its recurrence as they were.
  pub completed_task_outcome :
      (now : ℤ) (moves : Bool) (t : Task)
      → (Moved t (completed_task lib utc now true moves t) × (moves ≡ true))
        ⊎ (Closed now t (completed_task lib utc now true moves t)
            × ((moves ≡ false) ⊎ StaysPut t t.recurrence))
  unfolding completed_task
  completed_task_outcome now true t = elim (recurring-Moved now t t.recurrence refl) [
    | inl m ↦ inl (m, refl)
    | inr (c, s) ↦ inr (c, inr s)
  ]
  completed_task_outcome now false t = inr (finished-Closed now t, inl refl)
