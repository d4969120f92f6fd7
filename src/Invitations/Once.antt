-- ===== src/Invitations/Once.antt =====
-- That `Tick` of core/internal/invitations/engine.go prompts for an invitation once.
use dankcalendar.Base.{
  ℤ, ◌<ℤ◌, Bool, true, false, List, [], ◌∷◌, ◌++◌, Memᴰ, some, contains, string_eq, if◌then◌else◌,
  lookup, ◌≡◌, refl, sym, ◌∙◌, inl, inr, Bool-cases,
}
use dankcalendar.Settings.{UiSettings}
use dankcalendar.Calendar.Rsvp.{Texts}
use dankcalendar.Repo.Store.{EventRow, CalendarRow, AccountRow}
use dankcalendar.Invitations.{
  InviteKey, invite_eq, InvitationState, Engine, notified_set, key_of, Delivery, Ticked,
  self_emails, fire_all, tick,
}
use dankcalendar.Invitations.Silent.{in_window, listed, contains-++, true-false, fire_all-silent}
use dankcalendar.Invitations.Recorded.{AllRecorded, Recorded, fire_all-records}

-- One call of `Tick`, with what it reads.
pub record Round : Type 0 where
  pub now : ℤ
  pub settings : UiSettings
  pub accounts : List AccountRow
  pub calendars : List CalendarRow
  pub rows : List EventRow
  pub deliveries : List Delivery

module _ (texts : Texts) where
  abbrev pub round : Round → Engine → Ticked
  round r e = tick texts r.settings r.accounts r.calendars r.now r.rows r.deliveries e

  -- All that is prompted for in a series of rounds.
  abbrev pub rounds : List Round → Engine → List InviteKey
  rounds [] e = []
  rounds (r ∷ rs) e = let t = round r e in t.fired ++ rounds rs t.engine

  abbrev pub AllNear : ℤ → List Round → Type 0
  AllNear start [] = Unit
  AllNear start (r ∷ rs) = (in_window r.now start ≡ true) × AllNear start rs

  round-silent :
      (k : InviteKey) (st : InvitationState) (r : Round) (e : Engine)
      → lookup k e.states ≡ some st
      → in_window r.now st.event_start ≡ true
      → (lookup k (round r e).engine.states ≡ some st) × (contains (round r e).fired k ≡ false)
  unfolding tick
  round-silent k st r e h near = elim (Bool-cases r.settings.reminders_enabled) [
    | inl f ↦
        let (same, silent) =
          fire_all-silent texts (self_emails texts r.accounts r.calendars)
            (notified_set r.now e.states) r.now k r.deliveries r.rows e
            (listed k st r.now e.states h near) in
        rw f (same ∙ h, silent)
    | inr f ↦ rw f (h, refl)
  ]

  choice-records :
      (rows : List EventRow) (k : InviteKey) (now : ℤ) (b : Bool) (t : Ticked) (e : Engine)
      → (contains t.fired k ≡ true → Recorded rows now k t.engine.states)
      → contains (if b then t else record { engine = e; fired = [] }).fired k ≡ true
      → Recorded rows now k (if b then t else record { engine = e; fired = [] }).engine.states
  choice-records rows k now true t e f h = f h
  choice-records rows k now false t e f h = absurd (true-false (sym h))

  rounds-silent :
      (k : InviteKey) (st : InvitationState) (rs : List Round) (e : Engine)
      → lookup k e.states ≡ some st
      → AllNear st.event_start rs
      → contains (rounds rs e) k ≡ false
  rounds-silent k st [] e h near = refl
  rounds-silent k st (r ∷ rs) e h near =
      let (stays, silent) = round-silent k st r e h near.0 in
      rw (contains-++ k (round r e).fired (rounds rs (round r e).engine), silent)
        (rounds-silent k st rs (round r e).engine stays near.1)

-- An invitation that a call of `tick`, whose deliveries are all recorded, prompts for is recorded with the
-- time of the call and with the start, which is after that time, of a row of the invitation that the call
-- has read. It is not prompted for in any later call of a series in which, at the time of each call, that
-- start lies in the window for which the states are read. What the later calls read otherwise does not
-- matter.
pub prompted_once :
    (texts : Texts) (k : InviteKey) (r : Round) (e : Engine)
    → AllRecorded r.deliveries
    → contains (round texts r e).fired k ≡ true
    → (row : EventRow) × Memᴰ row r.rows
      × (key_of row ≡ k)
      × (r.now <ℤ row.start)
      × (lookup k (round texts r e).engine.states
          ≡ some (record { event_start = row.start; notified_at = r.now }))
      × ((rs : List Round)
          → AllNear texts row.start rs
          → contains (rounds texts rs (round texts r e).engine) k ≡ false)
unfolding tick
prompted_once texts k r e a h =
    let x =
      choice-records texts r.rows k r.now r.settings.reminders_enabled
        (fire_all texts (self_emails texts r.accounts r.calendars) (notified_set r.now e.states)
          r.now r.deliveries r.rows e)
        e (fire_all-records texts _ _ r.now k r.rows r.deliveries r.rows e (λ y m. m) a) h in
    (
      x.row,
      x.read,
      x.named,
      x.upcoming,
      x.stored,
      λ rs near. rounds-silent texts k _ rs _ x.stored near,
    )
