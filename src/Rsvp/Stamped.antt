-- ===== src/Rsvp/Stamped.antt =====
-- What `Apply` of core/internal/rsvp/apply.go stores, and when it stores nothing.
use dankcalendar.Base.{
  ℤ, ℕ, String, Bool, true, false, List, [], is_empty, Option, none, some, ◌==◌, string_eq,
  if◌then◌else◌, ◌≡◌, refl, ◌⊎◌, inl, inr, Bool-cases,
}
use dankcalendar.Calendar.Types.{Attendee, Event}
use dankcalendar.Calendar.Rsvp.{
  Texts, Account, can_respond, normalize_response, normalize_email, self_email, set_status,
  self_attendee_index, organizes, response_at, self_response,
}
use dankcalendar.Calendar.Rsvp.Answers.{awaits, set_status-awaits}
use dankcalendar.Repo.Store.{
  Error, refused, Result, ok, err, EventRow, CalendarRow, AccountRow, Tables, World, M, continue,
  query, only,
}
use dankcalendar.Repo.Events.{select}
use dankcalendar.Repo.Queries.{get_event}
use dankcalendar.Conv.Events.{event_from_row}
use dankcalendar.Rsvp.{
  Provider, Reply, joined, pinned, domain_account, stamped_at, stamped, apply, answer_row,
  answer_for, submit_answer, get_calendar_with_account,
}

module _ (texts : Texts) (email response : String) (h : can_respond response ≡ true)
    (fixed : texts.to_lower (texts.trim_space response) ≡ response) where
  abbrev pub index : List Attendee → Option ℕ
  index xs = self_attendee_index texts xs email

  pub stamped_at-awaits :
      (xs : List Attendee) (i : ℕ) (ev : Event) (o : Option ℕ)
      → index xs ≡ some i
      → index ev.attendees ≡ o
      → let atts = (stamped_at response (set_status response i xs) ev o).attendees in
        awaits (response_at texts atts (index atts)) ≡ false
  unfolding stamped_at awaits
  stamped_at-awaits xs i ev (some j) e f =
      set_status-awaits texts email response ev.attendees j h fixed f
  stamped_at-awaits xs i ev none e f = elim (Bool-cases (is_empty ev.attendees)) [
    | inl b ↦ rw b (set_status-awaits texts email response xs i h fixed e)
    | inr b ↦ rw b (rw f refl)
  ]

  pub self_response-awaits :
      (ev : Event)
      → awaits (response_at texts ev.attendees (index ev.attendees)) ≡ false
      → awaits (self_response texts ev email) ≡ false
  unfolding self_response awaits
  self_response-awaits ev e = elim (Bool-cases (normalize_email texts email == "")) [
    | inl b ↦ rw b refl
    | inr b ↦ elim (Bool-cases (organizes texts ev.organizer (normalize_email texts email))) [
      | inl o ↦ rw b (rw o refl)
      | inr o ↦ rw b (rw o e)
    ]
  ]

  -- An event with the answer of an attendee, as `Apply` stores it, does not wait for that answer.
  stamped-awaits :
      (xs : List Attendee) (i : ℕ) (ev : Event)
      → index xs ≡ some i
      → awaits
          (self_response texts (stamped texts response email (set_status response i xs) ev) email)
        ≡ false
  unfolding stamped
  stamped-awaits xs i ev e =
      self_response-awaits (stamped_at response (set_status response i xs) ev (index ev.attendees))
        (stamped_at-awaits xs i ev (index ev.attendees) e refl)

abbrev pub settled : Tables → World
settled t = record { tables = t; incidents = [] }

module _ (texts : Texts) (build : Account → Result Provider) (event_id response : String)
    (start : ℤ) (t : Tables) where
  -- What has to hold for an answer to be submitted.
  pub record Answerable : Type 0 where
    pub row : EventRow
    pub calendar : CalendarRow
    pub account : AccountRow
    pub index : ℕ
    pub canonical_answer : can_respond (normalize_response texts response) ≡ true
    pub found : only (select (λ (r : EventRow). r.id == event_id) t.events) ≡ ok row
    pub linked : (row.calendar_id == "") ≡ false
    pub calendar_found :
        joined t.accounts (only (select (λ (c : CalendarRow). c.id == row.calendar_id) t.calendars))
        ≡ ok (calendar, some account)
    pub writable : calendar.read_only ≡ false
    pub attends :
        self_attendee_index texts
          (pinned start (event_from_row row)).attendees
          (self_email texts (domain_account account))
        ≡ some index

  -- The call fails and writes nothing, or the answer was to be submitted.
  abbrev Refused : Result Reply × World → Type 0
  Refused p = ((e : Error) × (p ≡ (err e, settled t))) ⊎ Answerable

  abbrev answer : String
  answer = normalize_response texts response

  guarded :
      (b : Bool) (m n : M Reply)
      → (b ≡ true → Refused (m (settled t)))
      → (b ≡ false → Refused (n (settled t)))
      → Refused ((if b then m else n) (settled t))
  guarded true m n h k = h refl
  guarded false m n h k = k refl

  of_index :
      (row : EventRow) (c : CalendarRow) (a : AccountRow) (o : Option ℕ)
      → ((i : ℕ) → o ≡ some i → Answerable)
      → Refused
          (submit_answer texts build c a answer (pinned start (event_from_row row)) o (settled t))
  unfolding submit_answer
  of_index row c a none k = inl (refused "you are not an attendee of this event", refl)
  of_index row c a (some i) k = inr (k i refl)

  of_calendar :
      (row : EventRow) (r : Result (CalendarRow × Option AccountRow))
      → ((c : CalendarRow) (a : AccountRow) (i : ℕ)
          → r ≡ ok (c, some a)
          → c.read_only ≡ false
          → self_attendee_index texts
              (pinned start (event_from_row row)).attendees
              (self_email texts (domain_account a))
            ≡ some i
          → Answerable)
      → Refused (continue (answer_for texts build row answer start) (r, settled t))
  unfolding answer_for
  of_calendar row (err e) k = inl (e, refl)
  of_calendar row (ok (c, none)) k = inl (_, refl)
  of_calendar row (ok (c, some a)) k =
      guarded c.read_only _ _ (λ b. inl (refused "calendar is read-only", refl))
        (λ b. of_index row c a _ (λ i e. k c a i refl b e))

  of_row :
      can_respond answer ≡ true
      → (r : Result EventRow) → only (select (λ (x : EventRow). x.id == event_id) t.events) ≡ r
      → Refused (continue (answer_row texts build answer start) (r, settled t))
  unfolding answer_row get_calendar_with_account query
  of_row h (err e) f = inl (e, refl)
  of_row h (ok row) f = elim (Bool-cases (row.calendar_id == "")) [
    | inl b ↦ inl (refused "event has no calendar", rw b refl)
    | inr b ↦ rw b (
        of_calendar row
          (joined t.accounts
            (only (select (λ (c : CalendarRow). c.id == row.calendar_id) t.calendars)))
          (λ c a i e w j. record {
            row = row;
            calendar = c;
            account = a;
            index = i;
            canonical_answer = h;
            found = f;
            linked = b;
            calendar_found = e;
            writable = w;
            attends = j;
          }))
  ]

  -- While no statement fails and no other process writes, `Apply` either fails and leaves the tables as
  -- they were; or the response is one that can be submitted, the event is stored and has a calendar, the
  -- calendar is stored with its account and is not read-only, and the user is among the attendees.
  pub apply_refuses : Refused (apply texts build event_id response start (settled t))
  unfolding apply get_event query
  apply_refuses = elim (Bool-cases (can_respond answer)) [
    | inl h ↦ rw h (of_row h _ refl)
    | inr h ↦ rw h (inl (_, refl))
  ]
