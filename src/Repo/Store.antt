-- ===== src/Repo/Store.antt =====
-- The tables behind core/repo, and its statements. The database (ent over SQLite) is modelled by what
-- the code relies on: a statement reads and writes the tables as its ent builder says, or fails and
-- changes nothing, and another process may have changed the tables before it runs.
use dankcalendar.Base.{ℤ, ℕ, String, Bool, List, [], ◌∷◌, Option}
use dankcalendar.Calendar.Types.{EventStatus, TaskStatus, AccountKind}
use dankcalendar.Calendar.Json.{JsonMap}
use dankcalendar.Settings.{ReminderOverride}

-- What the engines read of an error of a provider.
pub record ProviderError : Type 0 where
  pub text : String
  -- `errors.Is(err, keyring.ErrLocked)`
  pub locked : Bool
  -- `errors.Is(err, calendar.ErrReauthRequired)`
  pub reauth : Bool
  -- `errors.As` to an error with `RetryAfter`
  pub retry_after : Option ℤ

pub data Error : Type 0 where
  not_found not_singular constraint : Error
  database : String → Error
  provider : ProviderError → Error
  -- `errors.New(text)` and the like
  refused : String → Error
  -- `fmt.Errorf("…: %w", err)`
  wrapped : String → Error → Error

pub data Result {ℓ} (A : Type ℓ) : Type ℓ where
  ok : A → Result A
  err : Error → Result A

-- A row of the events table with its calendar edge; `created` and `updated` are left out.
pub record EventRow : Type 0 where
  pub id : String
  pub calendar_id : String
  pub uid : String
  pub remote_id : String
  pub etag : String
  pub summary : String
  pub description : String
  pub location : String
  pub url : String
  pub meeting_url : String
  pub status : EventStatus
  pub start : ℤ
  pub end : ℤ
  pub all_day : Bool
  pub start_tz : String
  pub end_tz : String
  pub recurrence : Option JsonMap
  pub recurring_id : String
  pub original_start : Option ℤ
  pub organizer : Option JsonMap
  pub attendees : Option (List JsonMap)
  pub reminders : Option (List JsonMap)
  pub categories : Option (List String)
  pub transparency : String
  pub visibility : String
  pub raw_ics : String

pub record TaskRow : Type 0 where
  pub id : String
  pub calendar_id : String
  pub uid : String
  pub remote_id : String
  pub etag : String
  pub summary : String
  pub description : String
  pub location : String
  pub status : TaskStatus
  pub priority : ℤ
  pub percent_complete : ℤ
  pub due : Option ℤ
  pub start : Option ℤ
  pub completed : Option ℤ
  pub all_day : Bool
  pub due_tz : String
  pub start_tz : String
  pub parent_uid : String
  pub recurrence : Option JsonMap
  pub reminders : Option (List JsonMap)
  pub categories : Option (List String)
  pub raw_ics : String

-- A row of the calendars table with its account edge.
pub record CalendarRow : Type 0 where
  pub id : String
  pub account_id : String
  pub remote_id : String
  pub name : String
  pub description : String
  pub color : String
  pub time_zone : String
  pub read_only : Bool
  pub hidden : Bool
  pub sync_disabled : Bool
  pub sync_token : String
  pub supported_components : List String
  pub name_override : Option String
  pub reminder_overrides : Option ReminderOverride

pub record AccountRow : Type 0 where
  pub id : String
  pub kind : AccountKind
  pub display_name : String
  pub settings : Option JsonMap
  pub needs_reauth : Bool
  pub auth_error : String
  pub sync_notice : String

-- A row of the secrets table with its account edge; the value is left out.
pub record SecretRow : Type 0 where
  pub id : String
  pub account_id : String
  pub key : String

pub record Tables : Type 0 where
  pub events : List EventRow
  pub tasks : List TaskRow
  pub calendars : List CalendarRow
  pub accounts : List AccountRow
  pub secrets : List SecretRow
  -- The identifiers that `newID` will draw.
  pub new_ids : ℕ → String
  pub drawn : ℕ

-- What happens when a statement runs: nothing unusual, a failure of the database, or a change that
-- another process made just before.
pub data Incident : Type 0 where
  quiet : Incident
  broken : String → Incident
  meanwhile : (Tables → Tables) → Incident

-- The incidents to come; after the last one all is quiet.
pub record World : Type 0 where
  pub tables : Tables
  pub incidents : List Incident

abbrev pub M : Type 0 → Type 0
M A = World → Result A × World

abbrev pub continue : {A B : Type 0} → (A → M B) → Result A × World → Result B × World
continue f (ok a, w) = f a w
continue f (err e, w) = (err e, w)

infixl 5 ◌>>=◌ ◌>>◌
abbrev pub ◌>>=◌ : {A B : Type 0} → M A → (A → M B) → M B
◌>>=◌ m f w = continue f (m w)

abbrev pub ◌>>◌ : {A B : Type 0} → M A → M B → M B
m >> k = m >>= λ _. k

abbrev pub pure : {A : Type 0} → A → M A
pure a w = (ok a, w)

abbrev pub raise : {A : Type 0} → Error → M A
raise e w = (err e, w)

-- `if err != nil { return …, fmt.Errorf("text: %w", err) }`
abbrev pub wrapping : {A : Type 0} → String → Result A × World → Result A × World
wrapping text (ok a, w) = (ok a, w)
wrapping text (err e, w) = (err (wrapped text e), w)

abbrev pub wrap_error : {A : Type 0} → String → M A → M A
wrap_error text m w = wrapping text (m w)

-- One call of `err`, handed to the code.
abbrev pub attempt : {A : Type 0} → M A → M (Result A)
attempt m w = (ok (m w).0, (m w).1)

abbrev run : {A : Type 0} → (Tables → Result A × Tables) → Tables → List Incident → Result A × World
run f t rest = let (r, t') = f t in (r, record { tables = t'; incidents = rest })

-- One statement of the database.
abbrev pub statement :
    {A : Type 0} → (Tables → Result A × Tables) → List Incident → Tables → Result A × World
statement f [] t = run f t []
statement f (quiet ∷ rest) t = run f t rest
statement f (broken text ∷ rest) t = (err (database text), record { tables = t; incidents = rest })
statement f (meanwhile g ∷ rest) t = run f (g t) rest

-- A query leaves the tables alone.
unfoldable pub query : {A : Type 0} → (Tables → Result A) → M A
query f w = statement (λ t. (f t, t)) w.incidents w.tables

unfoldable pub update : {A : Type 0} → (Tables → Result A × Tables) → M A
update f w = statement f w.incidents w.tables

-- `Only`: exactly one row.
abbrev pub only : {A : Type 0} → List A → Result A
only [] = err not_found
only (x ∷ []) = ok x
only (x ∷ y ∷ rest) = err not_singular
