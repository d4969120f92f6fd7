-- ===== src/Invitations/Answered.antt =====
-- core/internal/rsvp with core/internal/invitations: an invitation that is answered is not prompted for.
use mathlib.Core.Option
use mathlib.Core.Option.{none-ne-some}
use dankcalendar.Base.{
  ℤ, ℕ, zero, suc, String, true, false, List, [], ◌∷◌, map, is_empty, Option, none, some, ◌==◌,
  string_eq, Dict, lookup, ◌≡◌, refl, sym, ◌∙◌, subst, inl, inr, Bool-cases, arith,
}
use dankcalendar.Calendar.Types.{Attendee, Event}
use dankcalendar.Calendar.Json.{JsonMap}
use dankcalendar.Calendar.Convert.{attendees_to_maps, attendees_from_maps}
use dankcalendar.Calendar.Convert.RoundTrip.{IsJsonColumn, columns_round_trip}
use dankcalendar.Calendar.Rsvp.{
  Texts, can_respond, set_status, index_of, normalize_email, self_attendee_index, response_at,
  self_response,
}
use dankcalendar.Calendar.Rsvp.Answers.{awaits}
use dankcalendar.Repo.Store.{EventRow}
use dankcalendar.Repo.Events.{set_fields, or_kept}
use dankcalendar.Conv.Events.{event_upsert_input}
use dankcalendar.Conv.Events.RoundTrip.{reread}
use dankcalendar.Rsvp.{stamped_at, stamped}
use dankcalendar.Rsvp.Stamped.{index, stamped_at-awaits, self_response-awaits}
use dankcalendar.Invitations.{InviteKey, or_empty, domain_snapshot, prompts}

set_status-filled :
    (status : String) (i : ℕ) (xs : List Attendee)
    → is_empty xs ≡ false
    → is_empty (set_status status i xs) ≡ false
unfolding set_status
set_status-filled status i [] h = h
set_status-filled status zero (x ∷ xs) h = refl
set_status-filled status (suc i) (x ∷ xs) h = refl

module _ (texts : Texts) (email response : String) where
  index-filled :
      (xs : List Attendee) (i : ℕ)
      → self_attendee_index texts xs email ≡ some i
      → is_empty xs ≡ false
  unfolding self_attendee_index index_of
  index-filled [] i h = elim (Bool-cases (normalize_email texts email == "")) [
    | inl b ↦ absurd (none-ne-some i (rw b at h))
    | inr b ↦ absurd (none-ne-some i (rw b at h))
  ]
  index-filled (x ∷ xs) i h = refl

  stamped_at-filled :
      (xs : List Attendee) (i : ℕ) (ev : Event) (o : Option ℕ)
      → self_attendee_index texts xs email ≡ some i
      → self_attendee_index texts ev.attendees email ≡ o
      → is_empty (stamped_at response (set_status response i xs) ev o).attendees ≡ false
  unfolding stamped_at
  stamped_at-filled xs i ev (some j) e f =
      set_status-filled response j ev.attendees (index-filled ev.attendees j f)
  stamped_at-filled xs i ev none e f = elim (Bool-cases (is_empty ev.attendees)) [
    | inl b ↦ rw b (set_status-filled response i xs (index-filled xs i e))
    | inr b ↦ rw b b
  ]

module _ (column : JsonMap → JsonMap) (law : IsJsonColumn column) where
  kept_attendees :
      (ys : List Attendee) (old : Option (List JsonMap))
      → is_empty ys ≡ false
      → attendees_from_maps (Option.map (map column) (or_kept (attendees_to_maps ys) old)) ≡ ys
  unfolding attendees_to_maps
  kept_attendees [] old h = absurd (ground arith)
  kept_attendees (y ∷ ys) old h =
      (columns_round_trip column law (y ∷ ys) [] (record { rrule = []; rdate = []; exdate = [] })).0

prompts-awaits :
    (texts : Texts) (selves : Dict String String) (notified : List InviteKey) (now : ℤ)
    (r : EventRow)
    → prompts texts selves notified now r ≡ true
    → awaits (self_response texts (domain_snapshot r) (or_empty (lookup r.calendar_id selves)))
      ≡ true
unfolding prompts
prompts-awaits texts selves notified now r h = ground arith

-- An event that is stored with a submitted answer of the user, who was among the attendees that were
-- sent, is not prompted for, whatever the provider gave back and the row held before, where the user's
-- email is that of the calendar. The response has to be one that can be submitted, which trimming and
-- lowering do not change.
pub answered_silent :
    (texts : Texts) (column : JsonMap → JsonMap) (law : IsJsonColumn column)
    (email response : String)
    → can_respond response ≡ true
    → texts.to_lower (texts.trim_space response) ≡ response
    → (xs : List Attendee) (i : ℕ) → self_attendee_index texts xs email ≡ some i
    → (updated : Event) (calendar_id : String) (row : EventRow) (selves : Dict String String)
      (notified : List InviteKey) (now : ℤ)
    → or_empty (lookup row.calendar_id selves) ≡ email
    → prompts texts selves notified now (
        reread column (
          set_fields
            (event_upsert_input calendar_id
              (stamped texts response email (set_status response i xs) updated))
            row))
      ≡ false
unfolding set_fields event_upsert_input stamped domain_snapshot
answered_silent texts column law email response h fixed xs i e updated calendar_id row selves
      notified now same =
    let ev =
      stamped_at response (set_status response i xs) updated
        (self_attendee_index texts updated.attendees email) in
    let r = reread column (set_fields (event_upsert_input calendar_id ev) row) in
    let kept : (domain_snapshot r).attendees ≡ ev.attendees =
      kept_attendees column law ev.attendees row.attendees
        (stamped_at-filled texts email response xs i updated _ e refl) in
    let given : awaits (
          response_at texts (domain_snapshot r).attendees
            (index texts email response h fixed (domain_snapshot r).attendees))
        ≡ false =
      rw kept (stamped_at-awaits texts email response h fixed xs i updated _ e refl) in
    let silent = self_response-awaits texts email response h fixed (domain_snapshot r) given in
    elim (Bool-cases (prompts texts selves notified now r)) [
      | inl p ↦
          let open_ : awaits (self_response texts (domain_snapshot r) email) ≡ true =
            subst (λ m. awaits (self_response texts (domain_snapshot r) m) ≡ true) same
              (prompts-awaits texts selves notified now r p) in
          absurd (ground (arith, sym silent ∙ open_))
      | inr p ↦ p
    ]
