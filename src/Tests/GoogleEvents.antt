-- ===== src/Tests/GoogleEvents.antt =====
-- The events of core/internal/providers/google/provider.go on small inputs.
use Prim.Native.Char.{Char, code}
use Prim.Native.String.append
use Prim.Native.String.{◌++◌}
use dankcalendar.Base.{
  pos, String, Bool, true, false, not, ◌&&◌, List, [], ◌∷◌, Option, none, some, ◌≡◌, refl, ap, ◌∙◌,
  arith, ◌==◌, string_eq, nat_eq, ℕ_discrete, if◌then◌else◌,
}
use dankcalendar.Calendar.Types.{Calendar, SyncCursor}
use dankcalendar.Google.Quota.Errors.{api}
use dankcalendar.Google.Events.{Env, GoogleEvent}
use dankcalendar.Google.Events.Pages.{Answer, failure}
use dankcalendar.Google.Events.Lines.{CutsLines}

abbrev pub calendar : Calendar
calendar = record {
  id = "c1";
  account_id = "a1";
  remote_id = "rc1";
  name = "Work";
  description = "";
  color = "";
  time_zone = "UTC";
  read_only = false;
  hidden = false;
  sync_token = "";
  supported_components = [];
}

abbrev pub env : Env
env = record {
  parse_date = λ s. pos 1000;
  parse_rfc3339 = λ s. if s == "early" then pos 1000 else pos 2000;
  cut = λ s sep. none;
  to_upper = λ s. s;
  meeting_url_in_text = λ a b. "";
  normalize_date_values = λ params value. value;
}

abbrev pub holiday : GoogleEvent
holiday = record {
  id = "g1";
  etag = "";
  status = "confirmed";
  summary = "Holiday";
  description = "";
  location = "";
  html_link = "";
  hangout_link = "";
  entry_points = [];
  recurrence = [];
  recurring_event_id = "";
  attendees = [];
  transparency = "";
  visibility = "";
  start = some (record { date = "2026-01-01"; date_time = ""; time_zone = "" });
  end = some (record { date = "2026-01-01"; date_time = ""; time_zone = "" });
  original_start = none;
  organizer = none;
  reminders = [];
}

abbrev pub cursor : SyncCursor
cursor = record { calendar_id = "c1"; token = "old" }

abbrev pub expired : List (Answer env)
expired = failure (api (record { code = 410; reasons = []; retry_after = ""; message = "" })) ∷ []

-- `strings.Cut` at a colon.
abbrev prepend : Char → Option (String × String) → Option (String × String)
prepend c none = none
prepend c (some (before, after)) = some (String.◌∷◌ c before, after)

unfoldable pub cut_colon : String → Option (String × String)
unfolding nat_eq ℕ_discrete
cut_colon String.[] = none
cut_colon (String.◌∷◌ c s) =
    let later = cut_colon s in if code c == b':' then some (String.[], s) else prepend c later

unfoldable no_colon : String → Bool
unfolding nat_eq ℕ_discrete
no_colon String.[] = true
no_colon (String.◌∷◌ c s) = not (code c == b':') && no_colon s

cut_colon_lem : (p v : String) → no_colon p ≡ true → cut_colon ((p ++ ":") ++ v) ≡ some (p, v)
unfolding cut_colon no_colon nat_eq ℕ_discrete
cut_colon_lem String.[] v h =
    let e : ":" ++ v ≡ String.◌∷◌ ":" v =
      append.cons ":" "" v ∙ ap (λ x. String.◌∷◌ ":" x) (append.nil v) in
    ap cut_colon e
cut_colon_lem (String.◌∷◌ c s) v h =
    let e : (String.◌∷◌ c s ++ ":") ++ v ≡ String.◌∷◌ c ((s ++ ":") ++ v) =
      ap (λ x. x ++ v) (append.cons c s ":") ∙ append.cons c (s ++ ":") v in
    let later = cut_colon_lem s v (ground arith) in ap cut_colon e ∙ ground (arith, later)

abbrev pub cutting : Env
cutting = record env { cut = λ s sep. if sep == ":" then cut_colon s else none }

pub cuts : CutsLines cutting
unfolding string_eq no_colon nat_eq ℕ_discrete
cuts = record {
  rrule = λ v. cut_colon_lem "RRULE" v refl;
  rdate = λ v. cut_colon_lem "RDATE" v refl;
  exdate = λ v. cut_colon_lem "EXDATE" v refl;
  plain_rrule = refl;
  plain_rdate = refl;
  plain_exdate = refl;
  upper_rrule = refl;
  upper_rdate = refl;
  upper_exdate = refl;
  no_zone = λ v. refl;
}
