-- ===== src/Calendar/Rsvp.antt =====
-- core/internal/calendar/rsvp.go: the user's answer to an invitation.
pub mod Answers
use dankcalendar.Base.{
  ℕ, zero, suc, String, Bool, true, false, ◌&&◌, ◌||◌, leb, List, [], ◌∷◌, Option, none, some, map,
  ◌==◌, contains, string_eq, if◌then◌else◌,
}
use dankcalendar.Calendar.Json.{Json, JsonMap, text, get}
use dankcalendar.Calendar.Types.{
  AccountKind, local, google, caldav, microsoft, ical, evolution, Attendee, Event,
}

-- The functions of Go on texts: `strings.TrimSpace`, `strings.ToLower`, `strings.EqualFold`, `len`, and
-- the slices `s[:n]` and `s[n:]`.
pub record Texts : Type 0 where
  pub trim_space : String → String
  pub to_lower : String → String
  pub equal_fold : String → String → Bool
  pub byte_length : String → ℕ
  pub before : ℕ → String → String
  pub from : ℕ → String → String

abbrev pub response_needs_action : String
response_needs_action = "needs-action"

abbrev pub response_accepted : String
response_accepted = "accepted"

abbrev pub response_declined : String
response_declined = "declined"

abbrev pub response_tentative : String
response_tentative = "tentative"

-- The `switch` of `NormalizeResponse`, on the text in lower case.
unfoldable pub canonical : String → String
canonical s =
    if contains ("accepted" ∷ "accept" ∷ []) s
    then response_accepted
    else if contains ("declined" ∷ "decline" ∷ "rejected" ∷ "reject" ∷ []) s
    then response_declined
    else if contains ("tentative" ∷ "tentativelyaccepted" ∷ "tentativelyaccept" ∷ "maybe" ∷ []) s
    then response_tentative
    else if s == "organizer"
    then response_accepted
    else response_needs_action

unfoldable pub can_respond : String → Bool
can_respond response =
    contains (response_accepted ∷ response_declined ∷ response_tentative ∷ []) response

pub record Account : Type 0 where
  pub id : String
  pub kind : AccountKind
  pub display_name : String
  pub settings : Option JsonMap

-- `a.Settings["username"].(string)`
abbrev pub text_of : Option Json → Option String
text_of (some (text s)) = some s
text_of none = none
text_of (some _) = none

abbrev username : Option JsonMap → Option String
username none = none
username (some m) = text_of (get m "username")

abbrev pub later_index : Option ℕ → Option ℕ
later_index none = none
later_index (some i) = some (suc i)

-- The index of the first attendee that the test accepts.
unfoldable pub index_of : (Attendee → Bool) → List Attendee → Option ℕ
index_of p [] = none
index_of p (a ∷ rest) = let later = index_of p rest in if p a then some 0 else later_index later

unfoldable pub attendee_at : List Attendee → ℕ → Option Attendee
attendee_at [] i = none
attendee_at (a ∷ rest) zero = some a
attendee_at (a ∷ rest) (suc i) = attendee_at rest i

-- `attendees[i].Status = status`
unfoldable pub set_status : String → ℕ → List Attendee → List Attendee
set_status status i [] = []
set_status status zero (a ∷ rest) = record a { status = status } ∷ rest
set_status status (suc i) (a ∷ rest) = a ∷ set_status status i rest

module _ (texts : Texts) where
  unfoldable pub normalize_response : String → String
  normalize_response s = canonical (texts.to_lower (texts.trim_space s))

  unfoldable pub normalize_email : String → String
  normalize_email s =
      let t = texts.trim_space s in
      let u =
        if leb 7 (texts.byte_length t) && texts.equal_fold (texts.before 7 t) "mailto:"
        then texts.from 7 t
        else t in
      texts.to_lower (texts.trim_space u)

  abbrev email_or_none : Option String → String
  email_or_none none = ""
  email_or_none (some s) = normalize_email s

  unfoldable pub self_email : Account → String
  self_email a = elim a.kind [
    | google ↦ normalize_email a.id
    | microsoft ↦ normalize_email a.id
    | caldav ↦ email_or_none (username a.settings)
    | local ↦ ""
    | ical ↦ ""
    | evolution ↦ ""
  ]

  abbrev pub is_self : String → Attendee → Bool
  is_self self a = normalize_email a.email == self

  -- `none` is -1.
  unfoldable pub self_attendee_index : List Attendee → String → Option ℕ
  self_attendee_index attendees email =
      let self = normalize_email email in
      if self == "" then none else index_of (is_self self) attendees

  abbrev pub organizes : Option Attendee → String → Bool
  organizes none self = false
  organizes (some o) self = normalize_email o.email == self

  abbrev pub response_of : Option Attendee → String × Bool
  response_of none = ("", false)
  response_of (some a) =
      if a.organizer then (response_accepted, false) else (normalize_response a.status, true)

  abbrev pub response_at : List Attendee → Option ℕ → String × Bool
  response_at attendees none = ("", false)
  response_at attendees (some i) = response_of (attendee_at attendees i)

  unfoldable pub self_response : Event → String → String × Bool
  self_response ev email =
      let self = normalize_email email in
      if self == ""
      then ("", false)
      else if organizes ev.organizer self
      then (response_accepted, false)
      else response_at ev.attendees (self_attendee_index ev.attendees email)
