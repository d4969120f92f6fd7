-- ===== src/Invitations.antt =====
-- core/internal/invitations/engine.go and core/repo/invitations.go: prompting the user for invitations
-- that are not answered, once for each.
pub mod Silent
pub mod Recorded
pub mod Once
pub mod Answered
use dankcalendar.Base.{
  ℤ, pos, zero, ◌*◌, ◌+ℤ◌, ◌-ℤ◌, ltb_ℤ, leb_ℤ, ℕ, String, Bool, true, false, not, ◌&&◌, ◌||◌, List,
  [], ◌∷◌, ◌++◌, ◌≡◌, ap, Option, none, some, ◌==◌, Eq, contains, string_eq, int_eq, nat_eq,
  if◌then◌else◌, Dict, lookup, put, keep,
}
use dankcalendar.Settings.{UiSettings}
use dankcalendar.Calendar.Types.{Event, AccountKind, EventStatus, zero_time}
use dankcalendar.Calendar.Convert.{attendees_from_maps, organizer_from_map}
use dankcalendar.Calendar.Rsvp.{Texts, Account, self_email, self_response}
use dankcalendar.Calendar.Rsvp.Answers.{awaits}
use dankcalendar.Repo.Store.{
  Result, ok, err, EventRow, CalendarRow, AccountRow, M, ◌>>=◌, pure, attempt,
}
use dankcalendar.Repo.Queries.{is_nil, is_cancelled_row}
use dankcalendar.Rsvp.{Provider, Reply, apply, domain_account, find_account}

abbrev pub day : ℕ
day = 24 * 60 * 60 * 1000000000

abbrev pub lookahead : ℤ
lookahead = pos (30 * day)

abbrev pub prune_after : ℤ
prune_after = pos (60 * day)

-- `stateKey`
pub record InviteKey : Type 0 where
  pub calendar_id : String
  pub uid : String

abbrev same : (k j : InviteKey) → k.calendar_id ≡ j.calendar_id → k.uid ≡ j.uid → k ≡ j
same k j c u i = record { calendar_id = c i; uid = u i }

instance unfoldable pub invite_eq : Eq InviteKey
invite_eq = record {
  dec = λ k j. elim (string_eq.dec k.calendar_id j.calendar_id) [
    | no p ↦ no (λ e. p (ap (λ x. x.calendar_id) e))
    | yes c ↦ elim (string_eq.dec k.uid j.uid) [
      | no p ↦ no (λ e. p (ap (λ x. x.uid) e))
      | yes u ↦ yes (same k j c u)
    ]
  ];
}

-- A row of the invitation states, less its key.
pub record InvitationState : Type 0 where
  pub event_start : ℤ
  pub notified_at : ℤ

abbrev pub Invitations : Type 0
Invitations = Dict InviteKey InvitationState

unfoldable pub list_invitation_states : ℤ → ℤ → Invitations → List InviteKey
list_invitation_states from to [] = []
list_invitation_states from to ((key, st) ∷ rest) =
    let later = list_invitation_states from to rest in
    if leb_ℤ from st.event_start && leb_ℤ st.event_start to then key ∷ later else later

-- A row that is there is updated, else one is created.
unfoldable pub set_invitation_notified : InviteKey → ℤ → ℤ → Invitations → Invitations
set_invitation_notified key event_start notified_at states =
    put key (record { event_start = event_start; notified_at = notified_at }) states

unfoldable prune_invitation_states : ℤ → Invitations → Invitations
prune_invitation_states before [] = []
prune_invitation_states before ((key, st) ∷ rest) =
    let later = prune_invitation_states before rest in
    if ltb_ℤ st.event_start before then later else (key, st) ∷ later

pub record PendingInvite : Type 0 where
  pub event_id : String
  pub calendar_id : String

pub record Engine : Type 0 where
  pub states : Invitations
  pub pending : Dict ℕ PendingInvite

unfoldable pub notified_set : ℤ → Invitations → List InviteKey
notified_set now states = list_invitation_states (now -ℤ prune_after) (now +ℤ lookahead) states

-- The event that `SelfResponse` reads of a row; what it leaves empty is not read.
unfoldable pub domain_snapshot : EventRow → Event
domain_snapshot r = record {
  id = "";
  calendar_id = "";
  uid = "";
  remote_id = "";
  etag = "";
  summary = "";
  description = "";
  location = "";
  url = "";
  meeting_url = "";
  status = none;
  start = zero_time;
  end = zero_time;
  all_day = false;
  start_time_zone = "";
  end_time_zone = "";
  recurrence = none;
  recurring_id = "";
  original_start = zero_time;
  organizer = organizer_from_map r.organizer;
  attendees = attendees_from_maps r.attendees;
  reminders = [];
  categories = none;
  transparency = "";
  visibility = "";
  raw_ics = "";
}

abbrev pub key_of : EventRow → InviteKey
key_of r = record { calendar_id = r.calendar_id; uid = r.uid }

abbrev pub or_empty : Option String → String
or_empty none = ""
or_empty (some s) = s

-- How a call of `Send` goes, and whether the statement after it succeeds.
pub data Delivery : Type 0 where
  undelivered : Delivery
  delivered : (id : ℕ) (recorded : Bool) → Delivery

pub record Ticked : Type 0 where
  pub engine : Engine
  pub fired : List InviteKey

unfoldable pub fire : EventRow → ℤ → Delivery → Engine → Ticked
fire r now undelivered e = record { engine = e; fired = [] }
fire r now (delivered id recorded) e = record {
  engine = record {
    states = if recorded then set_invitation_notified (key_of r) r.start now e.states else e.states;
    pending = put id (record { event_id = r.id; calendar_id = r.calendar_id }) e.pending;
  };
  fired = key_of r ∷ [];
}

-- What `HandleAction` does besides answering.
pub data Effect : Type 0 where
  publish_events : (calendar_id : String) → Effect
  dismiss : (id : ℕ) → Effect
  open_app : Effect

abbrev after_reply : ℕ → Result Reply → M (List Effect)
after_reply id (ok r) = pure (publish_events r.calendar_id ∷ dismiss id ∷ [])
after_reply id (err e) = pure []

module _ (texts : Texts) where
  -- The loop of `selfEmails` over the calendars; an email that is empty is left out.
  unfoldable pub self_emails : List AccountRow → List CalendarRow → Dict String String
  self_emails accounts [] = []
  self_emails accounts (c ∷ cs) =
      let rest = self_emails accounts cs in
      elim (find_account accounts c.account_id) [
        | none ↦ rest
        | some a ↦
            if c.read_only || self_email texts (domain_account a) == ""
            then rest
            else (c.id, self_email texts (domain_account a)) ∷ rest
      ]

  -- The tests of the loop of `Tick`.
  unfoldable pub prompts : Dict String String → List InviteKey → ℤ → EventRow → Bool
  prompts self_by_calendar notified now r =
      not (r.calendar_id == "" || r.id == "")
      && (not (not (r.recurring_id == "") && not (is_nil r.recurrence))
          && (not (is_cancelled_row r.status)
              && (ltb_ℤ now r.start
                  && (not (or_empty (lookup r.calendar_id self_by_calendar) == "")
                      && (not (contains notified (key_of r))
                          && awaits (
                              self_response texts (domain_snapshot r)
                                (or_empty (lookup r.calendar_id self_by_calendar))))))))

  -- The loop of `Tick`; after the last delivery the sender fails.
  unfoldable pub fire_all :
      Dict String String → List InviteKey → ℤ → List Delivery → List EventRow → Engine → Ticked
  fire_all selves notified now ds [] e = record { engine = e; fired = [] }
  fire_all selves notified now [] (r ∷ rs) e = record { engine = e; fired = [] }
  fire_all selves notified now (d ∷ ds) (r ∷ rs) e =
      let t = fire r now d e in
      let later = fire_all selves notified now ds rs t.engine in
      let passed = fire_all selves notified now (d ∷ ds) rs e in
      if prompts selves notified now r
      then record { engine = later.engine; fired = t.fired ++ later.fired }
      else passed

  -- `Tick`, with the rows that `ListEvents` gives for the window.
  unfoldable pub tick :
      UiSettings
      → List AccountRow
      → List CalendarRow
      → ℤ
      → List EventRow
      → List Delivery
      → Engine
      → Ticked
  tick settings accounts calendars now rows deliveries e =
      if settings.reminders_enabled
      then fire_all (self_emails accounts calendars) (notified_set now e.states) now deliveries rows
          e
      else record { engine = e; fired = [] }

  unfoldable pub handle_action : (Account → Result Provider) → Engine → ℕ → String → M (List Effect)
  handle_action build e id action = elim (lookup id e.pending) [
    | none ↦ pure []
    | some inv ↦
        if contains ("accept" ∷ "decline" ∷ "tentative" ∷ []) action
        then attempt (apply texts build inv.event_id action zero_time) >>= after_reply id
        else if action == "default"
        then pure (open_app ∷ dismiss id ∷ [])
        else pure []
  ]

unfoldable pub handle_closed : ℕ → Engine → Engine
handle_closed id e = record e { pending = keep (λ key. not (key == id)) e.pending }
