-- ===== src/Invitations/Recorded.antt =====
-- What `Tick` of core/internal/invitations/engine.go records of the invitations it prompts for.
use dankcalendar.Base.{
  ℤ, ◌<ℤ◌, String, Bool, true, false, List, [], ◌∷◌, ◌++◌, Memᴰ, ℕ, subst, some, ◌==◌, contains,
  string_eq, if◌then◌else◌, Dict, lookup, lookup-put, ◌≡◌, refl, sym, ◌∙◌, inl, inr, Bool-cases,
  arith,
}
use dankcalendar.Calendar.Rsvp.{Texts}
use dankcalendar.Repo.Store.{EventRow}
use dankcalendar.Invitations.{
  InviteKey, invite_eq, Invitations, set_invitation_notified, Engine, key_of, Delivery, undelivered,
  delivered, Ticked, fire, prompts, fire_all,
}
use dankcalendar.Invitations.Silent.{contains_one, contains-++, true-false, prompted}

abbrev pub AllRecorded : List Delivery → Type 0
AllRecorded [] = Unit
AllRecorded (undelivered ∷ ds) = AllRecorded ds
AllRecorded (delivered id recorded ∷ ds) = (recorded ≡ true) × AllRecorded ds

-- The invitation was prompted for at this time, before its event starts: the state has the start of a
-- row of the invitation among those that were read.
pub record Recorded (rows : List EventRow) (now : ℤ) (k : InviteKey) (states : Invitations)
    : Type 0 where
  pub row : EventRow
  pub read : Memᴰ row rows
  pub named : key_of row ≡ k
  pub stored : lookup k states ≡ some (record { event_start = row.start; notified_at = now })
  pub upcoming : now <ℤ row.start

key_test : (j k : InviteKey) → (j == k) ≡ true → j ≡ k
key_test j k h = ground arith

module _ (rows : List EventRow) (now : ℤ) (k : InviteKey) where
  recorded_now :
      (r : EventRow) (e : Engine) (id : ℕ)
      → Memᴰ r rows
      → now <ℤ r.start
      → (key_of r == k) ≡ true
      → Recorded rows now k (fire r now (delivered id true) e).engine.states
  unfolding fire set_invitation_notified
  recorded_now r e id m h b = record {
    row = r;
    read = m;
    named = key_test (key_of r) k b;
    stored =
        lookup-put (key_of r) (record { event_start = r.start; notified_at = now }) k e.states
        ∙ rw b refl;
    upcoming = h;
  }

  fire-Recorded :
      (r : EventRow) (d : Delivery) (e : Engine)
      → Memᴰ r rows
      → now <ℤ r.start
      → Recorded rows now k e.states
      → Recorded rows now k (fire r now d e).engine.states
  unfolding fire set_invitation_notified
  fire-Recorded r undelivered e m h k' = k'
  fire-Recorded r (delivered id false) e m h k' = k'
  fire-Recorded r (delivered id true) e m h k' = elim (Bool-cases (key_of r == k)) [
    | inl b ↦ recorded_now r e id m h b
    | inr b ↦ record {
      row = k'.row;
      read = k'.read;
      named = k'.named;
      upcoming = k'.upcoming;
      stored =
          lookup-put (key_of r) (record { event_start = r.start; notified_at = now }) k e.states
          ∙ rw b k'.stored;
    }
  ]

  fire-records :
      (r : EventRow) (d : Delivery) (ds : List Delivery) (e : Engine)
      → Memᴰ r rows
      → now <ℤ r.start
      → AllRecorded (d ∷ ds)
      → contains (fire r now d e).fired k ≡ true
      → Recorded rows now k (fire r now d e).engine.states
  unfolding fire
  fire-records r undelivered ds e m h a f = absurd (ground arith)
  fire-records r (delivered id recorded) ds e m h a f = elim (Bool-cases (key_of r == k)) [
    | inl b ↦
        subst (λ b. Recorded rows now k (fire r now (delivered id b) e).engine.states) (sym a.0)
          (recorded_now r e id m h b)
    | inr b ↦ absurd (true-false (sym (sym (contains_one (key_of r) k) ∙ f) ∙ b))
  ]

module _ (texts : Texts) (selves : Dict String String) (notified : List InviteKey) (now : ℤ)
    (k : InviteKey) (rows : List EventRow) where
  AllRecorded-tail : (d : Delivery) (ds : List Delivery) → AllRecorded (d ∷ ds) → AllRecorded ds
  AllRecorded-tail undelivered ds a = a
  AllRecorded-tail (delivered id recorded) ds a = a.1

  abbrev Among : List EventRow → Type 0
  Among rs = (r : EventRow) → Memᴰ r rs → Memᴰ r rows

  fire_all-Recorded :
      (ds : List Delivery) (rs : List EventRow) (e : Engine)
      → Among rs
      → Recorded rows now k e.states
      → Recorded rows now k (fire_all texts selves notified now ds rs e).engine.states
  unfolding fire_all
  fire_all-Recorded ds [] e m h = h
  fire_all-Recorded [] (r ∷ rs) e m h = h
  fire_all-Recorded (d ∷ ds) (r ∷ rs) e m h =
      let tail : Among rs = λ x n. m x (Memᴰ.tail n) in
      elim (Bool-cases (prompts texts selves notified now r)) [
        | inl p ↦ rw p (
            fire_all-Recorded ds rs _ tail (
              fire-Recorded rows now k r d e (m r (Memᴰ.head refl))
                (prompted texts selves notified now r p).1 h))
        | inr p ↦ rw p (fire_all-Recorded (d ∷ ds) rs e tail h)
      ]

  rest_fired :
      (e : Engine) (xs ys : List InviteKey) (b : Bool) (q : Ticked)
      → b ≡ true
      → contains xs k ≡ false
      → contains (if b then record { engine = e; fired = xs ++ ys } else q).fired k ≡ true
      → contains ys k ≡ true
  rest_fired e xs ys true q f x h = ground (arith, contains-++ k xs ys)
  rest_fired e xs ys false q f x h = absurd (true-false (sym f))

  passed_fired :
      (b : Bool) (p q : Ticked)
      → b ≡ false
      → contains (if b then p else q).fired k ≡ true
      → contains q.fired k ≡ true
  passed_fired true p q f h = absurd (true-false f)
  passed_fired false p q f h = h

  pub fire_all-records :
      (ds : List Delivery) (rs : List EventRow) (e : Engine)
      → Among rs
      → AllRecorded ds
      → contains (fire_all texts selves notified now ds rs e).fired k ≡ true
      → Recorded rows now k (fire_all texts selves notified now ds rs e).engine.states
  unfolding fire_all
  fire_all-records ds [] e m a h = absurd (ground arith)
  fire_all-records [] (r ∷ rs) e m a h = absurd (ground arith)
  fire_all-records (d ∷ ds) (r ∷ rs) e m a h =
      let tail : Among rs = λ x n. m x (Memᴰ.tail n) in
      elim (Bool-cases (prompts texts selves notified now r)) [
        | inl p ↦
            let t = fire r now d e in
            let later = fire_all texts selves notified now ds rs t.engine in
            let soon = (prompted texts selves notified now r p).1 in
            rw p (elim (Bool-cases (contains t.fired k)) [
              | inl x ↦
                  fire_all-Recorded ds rs t.engine tail
                    (fire-records rows now k r d ds e (m r (Memᴰ.head refl)) soon a x)
              | inr x ↦ fire_all-records ds rs t.engine tail (AllRecorded-tail d ds a) (
                  rest_fired later.engine t.fired later.fired (prompts texts selves notified now r)
                    (fire_all texts selves notified now (d ∷ ds) rs e) p x h)
            ])
        | inr p ↦ rw p (
            fire_all-records (d ∷ ds) rs e tail a
              (passed_fired (prompts texts selves notified now r) _ _ p h))
      ]
