-- ===== src/Tests/Invites.antt =====
-- The invitations of core/internal/invitations and the answers of core/internal/rsvp on small inputs.
use dankcalendar.Base.{
  pos, ◌<ℤ◌, true, false, List, [], ◌∷◌, Memᴰ, none, some, ◌≡◌, refl, ◌==◌, string_eq, ◌⊎◌, int_eq,
  contains, lookup,
}
use dankcalendar.Calendar.Types.{Attendee, Event}
use dankcalendar.Calendar.Convert.{
  attendees_from_maps, attendees_to_maps, attendee_to_map, organizer_from_map,
}
use dankcalendar.Calendar.Rsvp.{
  Texts, canonical, can_respond, set_status, self_attendee_index, index_of, normalize_email,
  self_email, self_response, normalize_response, attendee_at,
}
use dankcalendar.Calendar.Rsvp.Answers.{awaits}
use dankcalendar.Settings.{defaults}
use dankcalendar.Repo.Store.{ok, err, Error, EventRow, Tables}
use dankcalendar.Repo.Events.{set_fields, blank_event}
use dankcalendar.Conv.Events.{event_upsert_input, event_status}
use dankcalendar.Conv.Events.RoundTrip.{reread}
use dankcalendar.Rsvp.{Provider, apply, stamped}
use dankcalendar.Rsvp.Stamped.{settled, Answerable, apply_refuses}
use dankcalendar.Invitations.{
  InviteKey, invite_eq, Engine, delivered, tick, fire_all, fire, prompts, self_emails,
  domain_snapshot, notified_set, key_of, list_invitation_states,
}
use dankcalendar.Invitations.Once.{Round, round, rounds, AllNear, prompted_once}
use dankcalendar.Invitations.Answered.{answered_silent}
use dankcalendar.Tests.Data.{tables, meeting, decode_all, law}
use dankcalendar.Tests.Accounts.{account, calendar}

abbrev pub texts : Texts
texts = record {
  trim_space = λ s. s;
  to_lower = λ s. s;
  equal_fold = λ s t. s == t;
  byte_length = λ s. 0;
  before = λ n s. s;
  from = λ n s. s;
}

abbrev echo : Provider
echo = record { respond = none; update_event = λ c ev. ok ev }

abbrev stored : Tables
stored = record tables { calendars = calendar ∷ []; accounts = account ∷ [] }

apply_refuses_example :
    ((e : Error) × (apply texts (λ a. ok echo) "id1" "accept" (pos 0) (settled stored)
        ≡ (err e, settled stored)))
    ⊎ Answerable texts (λ a. ok echo) "id1" "accept" (pos 0) stored
apply_refuses_example = apply_refuses texts (λ a. ok echo) "id1" "accept" (pos 0) stored

abbrev self : Attendee
self = record {
  email = "a1";
  display_name = "";
  role = "";
  status = "needsAction";
  optional = false;
  organizer = false;
}

abbrev invitation : Event
invitation = record meeting { attendees = self ∷ []; recurrence = none }

abbrev invited : EventRow
invited = set_fields (event_upsert_input "c1" invitation) (blank_event "id1" "c1" "u1")

answered_silent_example :
    prompts texts (("c1", "a1") ∷ []) [] (pos 10) (
      reread decode_all (
        set_fields
          (event_upsert_input "c1"
            (stamped texts "accepted" "a1" (set_status "accepted" 0 (self ∷ [])) invitation))
          invited))
    ≡ false
unfolding can_respond string_eq self_attendee_index index_of normalize_email lookup set_fields
    event_upsert_input
answered_silent_example =
    answered_silent texts decode_all law "a1" "accepted" refl refl (self ∷ []) 0 refl invitation
      "c1" invited (("c1", "a1") ∷ []) [] (pos 10) refl

abbrev morning : Round
morning = record {
  now = pos 10;
  settings = defaults;
  accounts = account ∷ [];
  calendars = calendar ∷ [];
  rows = reread decode_all invited ∷ [];
  deliveries = delivered 1 true ∷ [];
}

abbrev idle : Engine
idle = record { states = []; pending = [] }

abbrev invite_key : InviteKey
invite_key = record { calendar_id = "c1"; uid = "u1" }

first_prompts : contains (round texts morning idle).fired invite_key ≡ true
unfolding tick fire_all fire prompts self_emails domain_snapshot awaits self_response
    self_attendee_index index_of normalize_email string_eq invite_eq set_fields event_upsert_input
    event_status lookup self_email notified_set list_invitation_states organizer_from_map
    attendee_to_map attendees_from_maps attendees_to_maps attendee_at normalize_response canonical
first_prompts = refl

prompted_once_example :
    (row : EventRow) × Memᴰ row morning.rows
    × (key_of row ≡ invite_key)
    × (pos 10 <ℤ row.start)
    × (lookup invite_key (round texts morning idle).engine.states
        ≡ some (record { event_start = row.start; notified_at = pos 10 }))
    × ((rs : List Round)
        → AllNear texts row.start rs
        → contains (rounds texts rs (round texts morning idle).engine) invite_key ≡ false)
prompted_once_example = prompted_once texts invite_key morning idle (refl, tt) first_prompts
