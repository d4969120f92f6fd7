-- ===== src/Repo/Queries/Expanded/Listed.antt =====
-- Which rows the expanded listing of core/repo/events_queries.go holds.
use mathlib.Core.List.Memᴰ
use dankcalendar.Base.{
  ℤ, ◌+ℤ◌, ◌-ℤ◌, ◌≤ℤ◌, ◌<ℤ◌, ltb_ℤ, String, true, false, ◌&&◌, List, [], ◌∷◌, ◌++◌, map, Memᴰ,
  Memᴰ-map, Memᴰ-of_map, contains-Memᴰ, Memᴰ-contains, Option, none, some, contains, string_eq,
  int_eq, ◌≡◌, refl, ◌≢◌, inl, inr, arith, Bool-cases,
}
use dankcalendar.Repo.Store.{EventRow, Tables}
use dankcalendar.Repo.Events.{select}
use dankcalendar.Repo.Events.Members.{Memᴰ-select, Memᴰ-of_select}
use dankcalendar.Repo.Queries.{EventFilter, is_cancelled_row, in_scope, in_base}
use dankcalendar.Repo.Queries.Expanded.{
  Env, occurrence, key_of, shows, starts_of, expansion, expand_master, expand_masters,
  exception_key, is_concrete, is_master, is_exception,
}

module _ (env : Env) (f : EventFilter) (from to : ℤ) (t : Tables) where
  -- A recurring row that may have occurrences in the window.
  pub record Master (m : EventRow) : Type 0 where
    pub stored : Memᴰ m t.events
    pub scope : in_scope env.contains_fold f t.calendars m ≡ true
    pub begun : m.start ≤ℤ to
    pub recurs : ¬ (m.recurrence ≡ none)

  -- An exception in the store replaces the occurrence.
  pub record Overridden (m : EventRow) (start : ℤ) : Type 0 where
    pub exception : EventRow
    pub stored : Memᴰ exception t.events
    pub scope : in_scope env.contains_fold f t.calendars exception ≡ true
    pub overrides : exception.recurring_id ≢ ""
    pub same_key : key_of env t.calendars m start ≡ exception_key env t.calendars exception

  pub data Listed (r : EventRow) : Type 0 where
    concrete :
        Memᴰ r t.events
        → in_scope env.contains_fold f t.calendars r ≡ true
        → from ≤ℤ r.end
        → r.start ≤ℤ to
        → is_cancelled_row r.status ≡ false
        → r.recurrence ≡ none
        → Listed r
    occurring :
        (m : EventRow) (start : ℤ) (starts : List ℤ)
        → Master m
        → starts_of env t.calendars m from to ≡ some starts
        → Memᴰ start starts
        → from <ℤ start +ℤ (m.end -ℤ m.start)
        → start <ℤ to
        → ¬ Overridden m start
        → r ≡ occurrence m start
        → Listed r
    unexpanded :
        (m : EventRow)
        → Master m
        → starts_of env t.calendars m from to ≡ none
        → from <ℤ m.end
        → m.start <ℤ to
        → r ≡ m
        → Listed r

  abbrev suppressed_at : List String
  suppressed_at =
      map (exception_key env t.calendars) (select (is_exception env f t.calendars) t.events)

  overridden :
      (m : EventRow) (start : ℤ)
      → contains suppressed_at (key_of env t.calendars m start) ≡ true
      → Overridden m start
  unfolding is_exception
  overridden m start h =
      let (e, k, same) =
        Memᴰ-of_map (exception_key env t.calendars)
          (select (is_exception env f t.calendars) t.events)
          (contains-Memᴰ suppressed_at (key_of env t.calendars m start) h) in
      let (stored, p) = Memᴰ-of_select (is_exception env f t.calendars) t.events k in
      record {
        exception = e;
        stored = stored;
        scope = ground arith;
        overrides = λ q. ground arith;
        same_key = same;
      }

  suppressed_keys :
      (m : EventRow) (start : ℤ)
      → Overridden m start
      → contains suppressed_at (key_of env t.calendars m start) ≡ true
  unfolding is_exception
  suppressed_keys m start o = Memᴰ-contains suppressed_at (key_of env t.calendars m start) (
      Memᴰ.cast o.same_key (
        Memᴰ-map (exception_key env t.calendars) (
          Memᴰ-select (is_exception env f t.calendars) (ground (arith, o.scope, o.overrides))
            o.stored)))

  of_expansion :
      (m : EventRow) (r : EventRow) (o : Option (List ℤ))
      → Master m
      → starts_of env t.calendars m from to ≡ o
      → Memᴰ r (expansion env t.calendars m from to suppressed_at o)
      → Listed r
  unfolding expansion shows
  of_expansion m r none h e k = elim (Bool-cases (ltb_ℤ from m.end && ltb_ℤ m.start to)) [
    | inl b ↦
        let q = Memᴰ.eq_of_singleton (rw b at k) in unexpanded m h e (ground arith) (ground arith) q
    | inr b ↦ absurd (Memᴰ.not-nil (rw b at k))
  ]
  of_expansion m r (some starts) h e k =
      let p = shows env t.calendars m from to suppressed_at in
      let (start, i, same) = Memᴰ-of_map (occurrence m) (select p starts) k in
      let (given, shown) = Memᴰ-of_select p starts i in
      occurring m start starts h e given (ground arith) (ground arith)
        (λ o. ground (arith, suppressed_keys m start o)) same

  expansion_of :
      (m : EventRow) (start : ℤ) (starts : List ℤ) (o : Option (List ℤ))
      → o ≡ some starts
      → Memᴰ start starts
      → from <ℤ start +ℤ (m.end -ℤ m.start)
      → start <ℤ to
      → ¬ Overridden m start
      → Memᴰ (occurrence m start) (expansion env t.calendars m from to suppressed_at o)
  unfolding expansion shows
  expansion_of m start starts o e k after before free =
      let p = shows env t.calendars m from to suppressed_at in
      rw e (
        Memᴰ-map (occurrence m)
          (elim (Bool-cases (contains suppressed_at (key_of env t.calendars m start))) [
            | inl c ↦ absurd (free (overridden m start c))
            | inr c ↦ Memᴰ-select p (ground arith) k
          ]))

  expansion-none :
      (m : EventRow) (o : Option (List ℤ))
      → o ≡ none
      → from <ℤ m.end
      → m.start <ℤ to
      → Memᴰ m (expansion env t.calendars m from to suppressed_at o)
  unfolding expansion
  expansion-none m o e after before =
      let b : (ltb_ℤ from m.end && ltb_ℤ m.start to) ≡ true = ground arith in
      rw e (rw b (Memᴰ.head refl))

  of_masters :
      (ms : List EventRow) (r : EventRow)
      → Memᴰ r (expand_masters env t.calendars ms from to suppressed_at)
      → (m : EventRow) × Memᴰ m ms × Memᴰ r (expand_master env t.calendars m from to suppressed_at)
  unfolding expand_masters
  of_masters [] r k = absurd (Memᴰ.not-nil k)
  of_masters (m ∷ ms) r k =
      elim (Memᴰ.append_cases (expand_master env t.calendars m from to suppressed_at) k) [
        | inl i ↦ (m, Memᴰ.head refl, i)
        | inr i ↦ let (n, j, l) = of_masters ms r i in (n, Memᴰ.tail j, l)
      ]

  masters_of :
      (ms : List EventRow) (m r : EventRow)
      → Memᴰ m ms
      → Memᴰ r (expand_master env t.calendars m from to suppressed_at)
      → Memᴰ r (expand_masters env t.calendars ms from to suppressed_at)
  unfolding expand_masters
  masters_of [] m r k i = absurd (Memᴰ.not-nil k)
  masters_of (n ∷ ms) m r k i = elim (Memᴰ.cases_cons k) [
    | inl e ↦ Memᴰ.append_left _ (rw e at i)
    | inr j ↦
        Memᴰ.append_right (expand_master env t.calendars n from to suppressed_at)
          (masters_of ms m r j i)
  ]

  Master-of : (m : EventRow) → Memᴰ m t.events → is_master env f to t.calendars m ≡ true → Master m
  unfolding is_master
  Master-of m k h = record {
    stored = k;
    scope = ground arith;
    begun = ground arith;
    recurs = λ e. ground (arith, e);
  }

  is_master-Master : (m : EventRow) → Master m → is_master env f to t.calendars m ≡ true
  unfolding is_master
  is_master-Master m h = ground (arith, h.scope, h.begun, h.recurs)

  -- The rows before sorting.
  abbrev pub gathered : List EventRow
  gathered =
      select (is_concrete env f t.calendars) t.events
      ++ expand_masters env t.calendars (select (is_master env f to t.calendars) t.events) from to
          suppressed_at

  pub gathered-Listed :
      f.from ≡ some from → f.to ≡ some to → (r : EventRow) → Memᴰ r gathered → Listed r
  unfolding is_concrete in_base expand_master
  gathered-Listed a b r k =
      elim (Memᴰ.append_cases (select (is_concrete env f t.calendars) t.events) k) [
        | inl i ↦
            let (stored, p) = Memᴰ-of_select (is_concrete env f t.calendars) t.events i in
            concrete stored (ground arith) (ground (arith, a)) (ground (arith, b)) (ground arith)
              (ground arith)
        | inr i ↦
            let (m, j, l) = of_masters (select (is_master env f to t.calendars) t.events) r i in
            let (stored, p) = Memᴰ-of_select (is_master env f to t.calendars) t.events j in
            of_expansion m r (starts_of env t.calendars m from to) (Master-of m stored p) refl l
      ]

  pub Listed-gathered :
      f.from ≡ some from → f.to ≡ some to → (r : EventRow) → Listed r → Memᴰ r gathered
  unfolding is_concrete in_base expand_master
  Listed-gathered a b r (concrete stored scope after before live once) =
      Memᴰ.append_left _ (Memᴰ-select (is_concrete env f t.calendars) (ground (arith, a, b)) stored)
  Listed-gathered a b r (occurring m start starts h e given after before free same) =
      Memᴰ.cast same (
        Memᴰ.append_right _ (
          masters_of (select (is_master env f to t.calendars) t.events) m (occurrence m start)
            (Memᴰ-select (is_master env f to t.calendars) (is_master-Master m h) h.stored)
            (expansion_of m start starts (starts_of env t.calendars m from to) e given after before
              free)))
  Listed-gathered a b r (unexpanded m h e after before same) = Memᴰ.cast same (
      Memᴰ.append_right _ (
        masters_of (select (is_master env f to t.calendars) t.events) m m
          (Memᴰ-select (is_master env f to t.calendars) (is_master-Master m h) h.stored)
          (expansion-none m (starts_of env t.calendars m from to) e after before)))
