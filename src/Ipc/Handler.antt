-- ===== src/Ipc/Handler.antt =====
-- What the handlers of core/internal/ipc share: the response, what goes out before it, and the provider
-- of a calendar (`providerForCalendar` in events_write.go). A handler that gives an error is one that
-- calls `RespondError` with its text.
pub mod Runs
use dankcalendar.Base.{
  false, ℕ, String, Bool, List, [], ◌∷◌, ◌++◌, Option, none, some, if◌then◌else◌,
}
use dankcalendar.Calendar.Types.{Calendar, Event, Task}
use dankcalendar.Calendar.Rsvp.{Account}
use dankcalendar.Settings.{ReminderOverride}
use dankcalendar.Repo.Store.{
  Error, refused, wrapped, Result, ok, err, EventRow, TaskRow, CalendarRow, AccountRow, World, M,
}
use dankcalendar.Rsvp.{get_calendar_with_account, domain_account}

-- `calendar.TaskWriter`
pub record TaskWriter : Type 0 where
  pub create_task : Calendar → Task → Result Task
  pub update_task : Calendar → Task → Result Task
  pub delete_task : Calendar → Task → Result (Unit {0})

-- A provider, as far as it answers; the options are there where it has the interface.
pub record Provider : Type 0 where
  pub create_event : Calendar → Event → Result Event
  pub update_event : Calendar → Event → Result Event
  pub delete_event : Calendar → Event → Result (Unit {0})
  pub respond : Option (Calendar → Event → String → Result Event)
  pub task_writer : Option TaskWriter

pub data Call : Type 0 where
  event_created event_updated event_deleted : Event → Call
  task_created task_updated task_deleted : Task → Call

pub data Effect : Type 0 where
  -- A call of the provider.
  called : Calendar → Call → Effect
  -- `Bus.Publish` of a topic with a type and a calendar.
  published : (topic type calendar_id : String) → Effect
  -- `SyncAccount` in the background.
  resync : (account_id : String) → Effect

-- What `Respond` is called with, less its rendering.
pub data Answer : Type 0 where
  event_found : EventRow → Answer
  events_found : List EventRow → ℕ → Answer
  task_found : TaskRow → Answer
  tasks_found : List TaskRow → ℕ → Answer
  was_deleted : Answer
  replied : (id response : String) → Answer
  calendar_hidden : (calendar_id : String) (hidden : Bool) → Answer
  calendar_disabled : (calendar_id : String) (disabled : Bool) → Answer
  calendar_named : (calendar_id name : String) → Answer
  calendar_set : (calendar_id : String) → Answer

pub record Outcome (A : Type 0) : Type 0 where
  pub result : Result A
  pub effects : List Effect
  pub world : World

abbrev pub Handler : Type 0 → Type 0
Handler A = World → Outcome A

abbrev pub preceded : {B : Type 0} → List Effect → Outcome B → Outcome B
preceded es o = record { result = o.result; effects = es ++ o.effects; world = o.world }

abbrev pub chained : {A B : Type 0} → (A → Handler B) → Result A → List Effect → World → Outcome B
chained f (ok a) es w = preceded es (f a w)
chained f (err e) es w = record { result = err e; effects = es; world = w }

infixl 5 ◌>>=◌ ◌>>◌
unfoldable pub ◌>>=◌ : {A B : Type 0} → Handler A → (A → Handler B) → Handler B
◌>>=◌ m f w = let o = m w in chained f o.result o.effects o.world

unfoldable pub ◌>>◌ : {A B : Type 0} → Handler A → Handler B → Handler B
unfolding ◌>>=◌
m >> k = m >>= λ _. k

abbrev pub respond_with : {A : Type 0} → Result A → Handler A
respond_with r w = record { result = r; effects = []; world = w }

abbrev pub respond : {A : Type 0} → A → Handler A
respond a = respond_with (ok a)

abbrev pub refuse : {A : Type 0} → String → Handler A
refuse text = respond_with (err (refused text))

-- Statements of the repository.
unfoldable pub run_repo : {A : Type 0} → M A → Handler A
run_repo m w = record { result = (m w).0; effects = []; world = (m w).1 }

-- One call of the error of a statement, handed to the code.
unfoldable pub try_repo : {A : Type 0} → M A → Handler (Result A)
try_repo m w = record { result = ok (m w).0; effects = []; world = (m w).1 }

unfoldable pub publish : String → String → String → Handler (Unit {0})
publish topic type calendar_id w = record {
  result = ok tt;
  effects = published topic type calendar_id ∷ [];
  world = w;
}

abbrev pub texted : {A : Type 0} → String → Result A → Result A
texted text (ok a) = ok a
texted text (err e) = err (wrapped text e)

-- A call of the provider, with the text that an error of it gets.
unfoldable pub call_provider : {A : Type 0} → String → Calendar → Call → Result A → Handler A
call_provider text c call r w = record {
  result = texted text r;
  effects = called c call ∷ [];
  world = w;
}

abbrev pub writable_calendar : CalendarRow → AccountRow → Calendar
writable_calendar c a = record {
  id = c.id;
  account_id = a.id;
  remote_id = c.remote_id;
  name = c.name;
  description = "";
  color = "";
  time_zone = c.time_zone;
  read_only = c.read_only;
  hidden = false;
  sync_token = "";
  supported_components = c.supported_components;
}

abbrev pub with_calendar : Calendar → Result Provider → Result (Provider × Calendar)
with_calendar c (ok p) = ok (p, c)
with_calendar c (err e) = err e

-- `build` is `Registry.Build`.
unfoldable pub provider_of :
    (Account → Result Provider) → CalendarRow × Option AccountRow → Handler (Provider × Calendar)
provider_of build (c, none) = refuse "calendar has no account"
provider_of build (c, some a) =
    if c.read_only
    then refuse "calendar is read-only"
    else respond_with (with_calendar (writable_calendar c a) (build (domain_account a)))

unfoldable pub provider_for_calendar :
    (Account → Result Provider) → String → Handler (Provider × Calendar)
provider_for_calendar build calendar_id =
    run_repo (get_calendar_with_account calendar_id) >>= provider_of build
