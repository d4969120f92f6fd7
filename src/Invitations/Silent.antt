-- ===== src/Invitations/Silent.antt =====
-- That `Tick` of core/internal/invitations/engine.go leaves an invitation that is notified alone.
use mathlib.Core.Logic.{ite}
use dankcalendar.Base.{
  ℤ, ◌+ℤ◌, ◌-ℤ◌, ◌<ℤ◌, leb_ℤ, String, Bool, true, false, ◌&&◌, ◌||◌, List, [], ◌∷◌, ◌++◌, some,
  ◌==◌, contains, string_eq, Dict, lookup, lookup-put, ◌≡◌, refl, sym, ap, ◌∙◌, inl, inr,
  Bool-cases, arith,
}
use dankcalendar.Calendar.Rsvp.{Texts}
use dankcalendar.Repo.Store.{EventRow}
use dankcalendar.Invitations.{
  lookahead, prune_after, InviteKey, invite_eq, InvitationState, Invitations,
  list_invitation_states, set_invitation_notified, Engine, notified_set, key_of, Delivery,
  undelivered, delivered, fire, prompts, fire_all,
}

-- The states that a call at this time reads.
abbrev pub in_window : ℤ → ℤ → Bool
in_window now start = leb_ℤ (now -ℤ prune_after) start && leb_ℤ start (now +ℤ lookahead)

pub listed :
    (k : InviteKey) (st : InvitationState) (now : ℤ) (states : Invitations)
    → lookup k states ≡ some st
    → in_window now st.event_start ≡ true
    → contains (notified_set now states) k ≡ true
unfolding notified_set list_invitation_states lookup
listed k st now [] e h = absurd (ground arith)
listed k st now ((key, x) ∷ rest) e h = ground (arith, listed k st now rest)

fire-lookup :
    (k : InviteKey) (r : EventRow) (now : ℤ) (d : Delivery) (e : Engine)
    → (key_of r == k) ≡ false
    → lookup k (fire r now d e).engine.states ≡ lookup k e.states
unfolding fire set_invitation_notified
fire-lookup k r now undelivered e h = refl
fire-lookup k r now (delivered id true) e h = ground (
  arith,
  h,
  lookup-put (key_of r) (record { event_start = r.start; notified_at = now }) k e.states,
)
fire-lookup k r now (delivered id false) e h = refl

or_false : (b : Bool) → (b || false) ≡ b
or_false true = refl
or_false false = refl

same_test : {j k : InviteKey} → j ≡ k → (j == k) ≡ true
same_test {j} {k} e = elim (invite_eq.dec j k) as (λ d. ite d true false ≡ true) [
  | yes q ↦ refl
  | no q ↦ absurd (q e)
]

other_test : {j k : InviteKey} → (j ≡ k → ⊥) → (j == k) ≡ false
other_test {j} {k} e = elim (invite_eq.dec j k) as (λ d. ite d true false ≡ false) [
  | yes q ↦ absurd (e q)
  | no q ↦ refl
]

pub contains_one : (j k : InviteKey) → contains (j ∷ []) k ≡ (j == k)
contains_one j k = elim (invite_eq.dec j k) [
  | yes e ↦ or_false (k == j) ∙ same_test (sym e) ∙ sym (same_test e)
  | no e ↦ or_false (k == j) ∙ other_test (λ q. e (sym q)) ∙ sym (other_test e)
]

pub true-false : true ≡ false → ⊥
true-false e = ground arith

fire-fired :
    (k : InviteKey) (r : EventRow) (now : ℤ) (d : Delivery) (e : Engine)
    → (key_of r == k) ≡ false
    → contains (fire r now d e).fired k ≡ false
unfolding fire
fire-fired k r now undelivered e h = refl
fire-fired k r now (delivered id recorded) e h = contains_one (key_of r) k ∙ h

pub contains-++ :
    (k : InviteKey) (xs ys : List InviteKey)
    → contains (xs ++ ys) k ≡ (contains xs k || contains ys k)
contains-++ k [] ys = refl
contains-++ k (x ∷ xs) ys = ground (arith, contains-++ k xs ys)

module _ (texts : Texts) (selves : Dict String String) (notified : List InviteKey) (now : ℤ) where
  pub prompted :
      (r : EventRow)
      → prompts texts selves notified now r ≡ true
      → (contains notified (key_of r) ≡ false) × (now <ℤ r.start)
  unfolding prompts
  prompted r h = (ground arith, ground arith)

  other_key :
      (k : InviteKey) (r : EventRow)
      → contains notified k ≡ true
      → prompts texts selves notified now r ≡ true
      → (key_of r == k) ≡ false
  other_key k r h p = elim (invite_eq.dec (key_of r) k) [
    | yes e ↦
        let q : contains notified (key_of r) ≡ true = ap (contains notified) e ∙ h in
        absurd (ground (arith, q, (prompted r p).0))
    | no e ↦ ground arith
  ]

  -- An invitation in the set of those notified stays as it is, and is not prompted for.
  pub fire_all-silent :
      (k : InviteKey) (ds : List Delivery) (rs : List EventRow) (e : Engine)
      → contains notified k ≡ true
      → (lookup k (fire_all texts selves notified now ds rs e).engine.states ≡ lookup k e.states)
        × (contains (fire_all texts selves notified now ds rs e).fired k ≡ false)
  unfolding fire_all
  fire_all-silent k ds [] e h = (refl, refl)
  fire_all-silent k [] (r ∷ rs) e h = (refl, refl)
  fire_all-silent k (d ∷ ds) (r ∷ rs) e h =
      elim (Bool-cases (prompts texts selves notified now r)) [
        | inl p ↦
            let t = fire r now d e in
            let other = other_key k r h p in
            let (same, silent) = fire_all-silent k ds rs t.engine h in
            rw p (
              same ∙ fire-lookup k r now d e other,
              rw
                  (
                    contains-++ k t.fired (fire_all texts selves notified now ds rs t.engine).fired,
                    fire-fired k r now d e other,
                  )
                  silent,
            )
        | inr p ↦ rw p (fire_all-silent k (d ∷ ds) rs e h)
      ]
