-- ===== src/Calendar/Rsvp/Answers.antt =====
-- What the answers of core/internal/calendar/rsvp.go are, and where an answer has been given.
use mathlib.Core.Option.{none-ne-some}
use dankcalendar.Base.{
  ℕ, zero, suc, String, Bool, true, false, ◌&&◌, List, [], ◌∷◌, Option, none, some, ◌==◌, string_eq,
  if◌then◌else◌, ◌≡◌, refl, ap, ◌∙◌, subst, inl, inr, Bool-cases, arith,
}
use dankcalendar.Calendar.Types.{Attendee}
use dankcalendar.Calendar.Rsvp.{
  Texts, response_needs_action, response_accepted, response_declined, response_tentative, canonical,
  can_respond, later_index, index_of, attendee_at, set_status, normalize_response, normalize_email,
  is_self, self_attendee_index, response_of, response_at,
}

-- The user may answer, and has not.
unfoldable pub awaits : String × Bool → Bool
awaits (status, can) = can && status == response_needs_action

-- The responses that can be submitted.
can_respond-elim :
    (P : String → Type 0)
    → P response_accepted
    → P response_declined
    → P response_tentative
    → (r : String) → can_respond r ≡ true
    → P r
unfolding can_respond
can_respond-elim P a d t r h = elim (string_eq.dec response_accepted r) [
  | yes e ↦ subst P e a
  | no x ↦ elim (string_eq.dec response_declined r) [
    | yes e ↦ subst P e d
    | no y ↦ elim (string_eq.dec response_tentative r) [
      | yes e ↦ subst P e t
      | no z ↦ absurd (ground arith)
    ]
  ]
]

canonical_of :
    (r : String) → can_respond r ≡ true → (canonical r ≡ r) × ((r == response_needs_action) ≡ false)
unfolding canonical string_eq
canonical_of =
    can_respond-elim (λ r. (canonical r ≡ r) × ((r == response_needs_action) ≡ false)) (refl, refl)
      (refl, refl) (refl, refl)

module _ (p : Attendee → Bool) (status : String)
    (blind : (a : Attendee) → p (record a { status = status }) ≡ p a) where
  index_of-set_status :
      (i : ℕ) (xs : List Attendee) → index_of p (set_status status i xs) ≡ index_of p xs
  unfolding index_of set_status
  index_of-set_status i [] = refl
  index_of-set_status zero (a ∷ xs) = rw (blind a) refl
  index_of-set_status (suc i) (a ∷ xs) = rw (index_of-set_status i xs) refl

  later_index-some :
      (o : Option ℕ) (i : ℕ) → later_index o ≡ some i → (j : ℕ) × (i ≡ suc j) × (o ≡ some j)
  later_index-some none i h = absurd (ground arith)
  later_index-some (some j) i h = (j, ground arith, refl)

  attendee_at-set_status :
      (i : ℕ) (xs : List Attendee)
      → index_of p xs ≡ some i
      → (a : Attendee) × (attendee_at (set_status status i xs) i
          ≡ some (record a { status = status }))
  unfolding index_of set_status attendee_at
  attendee_at-set_status i [] h = absurd (ground arith)
  attendee_at-set_status i (x ∷ xs) h = elim (Bool-cases (p x)) [
    | inl e ↦ let q : i ≡ 0 = ground (arith, rw e at h) in rw q (x, refl)
    | inr e ↦
        let (j, same, k) = later_index-some (index_of p xs) i (rw e at h) in
        rw same (attendee_at-set_status j xs k)
  ]

module _ (texts : Texts) (email response : String) where
  answered-awaits :
      (a : Attendee)
      → can_respond response ≡ true
      → texts.to_lower (texts.trim_space response) ≡ response
      → awaits (response_of texts (some (record a { status = response }))) ≡ false
  unfolding awaits normalize_response
  answered-awaits a h fixed =
      let (same, given) = canonical_of response h in
      elim (Bool-cases a.organizer) [ inl o ↦ rw o refl | inr o ↦ rw o (rw fixed (rw same given)) ]

  abbrev self_index : List Attendee → Option ℕ
  self_index xs = self_attendee_index texts xs email

  -- After the user's status was set.
  pub set_status-awaits :
      (xs : List Attendee) (i : ℕ)
      → can_respond response ≡ true
      → texts.to_lower (texts.trim_space response) ≡ response
      → self_index xs ≡ some i
      → awaits
          (response_at texts (set_status response i xs) (self_index (set_status response i xs)))
        ≡ false
  unfolding self_attendee_index
  set_status-awaits xs i h fixed e =
      let p = is_self texts (normalize_email texts email) in
      let same : self_index (set_status response i xs) ≡ self_index xs =
        ap (λ o. if normalize_email texts email == "" then none else o)
          (index_of-set_status p response (λ a. refl) i xs) in
      let found : index_of p xs ≡ some i = elim (Bool-cases (normalize_email texts email == "")) [
        | inl b ↦ absurd (none-ne-some i (rw b at e))
        | inr b ↦ rw b at e
      ] in
      let (a, k) = attendee_at-set_status p response (λ a. refl) i xs found in
      rw (same ∙ e) (rw k (answered-awaits a h fixed))
