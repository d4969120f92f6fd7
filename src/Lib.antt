-- ===== src/Lib.antt =====
-- A model of Dux Calendar's core: the synchronisation of calendars with their providers, the store
-- behind it, recurring events, answers to invitations, and the desktop's notifications.
--
-- The program's parts and where they are modelled:
--   Base        Boolean tests, signed integers, decidable equality, maps and lists, for all parts.
--   Settings    core/internal/settings: the defaults and overrides of the reminders.
--   Google      Google.Quota: core/internal/providers/google/quota.go. `wait_loop` is the loop of
--               `quotaGate.wait`, one turn for each round; `quota_call` the loop of `quotaCall`, one
--               attempt for each request. What other goroutines do to the shared gate, the clock, the
--               jitter and the server's answers are in the turns and attempts. Google.Events:
--               provider.go, `syncEvents` over the answers of Google,
--               `fromGoogleEvent`, and in Writes `toGoogleEvent` with the requests that send events.
--               Google.Calendars: provider.go and task.go, `ListCalendars` over the two answers.
--   Calendar    core/internal/calendar: types.go, convert.go (the JSON columns), color.go and
--               rsvp.go.
--   Repo        core/repo: the statements of the queries and mutations of events, tasks, calendars and
--               accounts over tables of rows (core/ent/schema). A statement runs as a whole or fails
--               and changes nothing; the incidents of a `World` make it fail, or let another process
--               write just before it. Repo.Transactions is `WithTx`. `Keeps` carries invariants
--               through such chains, `Post` postconditions.
--   Conv        core/internal/eventconv and core/internal/taskconv, between domain values and rows.
--   Recurrence  core/internal/recurrence: expand.go and advance.go, over a `Library` that stands for
--               rrule-go, the time zones and Go's functions on times and texts.
--   Rsvp        core/internal/rsvp/apply.go: an answer goes to the provider, and then to the store.
--   Invitations core/internal/invitations/engine.go with core/repo/invitations.go. It prompts for the
--               rows that Repo.Queries lists and answers by Rsvp.
--   Sync        core/internal/sync/engine.go. `sync_calendar` is `syncCalendar` over the answers that
--               `provider.Sync` gives; it writes through Repo by Conv. `sync_calendars` is the loop of
--               `syncAccount` over the calendars of an account, `Records` what a synchronisation
--               records of its account, and `Schedule` the due times of the accounts. `Changes` applies
--               the changes of a page; `Pages.Mirror` takes the snapshots that Google's provider lists,
--               `Pages.Written` and `Pages.Listed` say which rows they leave.
--   Reminders   core/internal/reminders/engine.go with core/repo/reminders.go: the triggers of events
--               and tasks, `Tick`, and snoozing; States holds what has fired or is snoozed.
--   Ipc         core/internal/ipc: the requests on events, tasks and calendars (events_write.go, tasks.go
--               and handlers.go). A `Handler` gives the answer or the error of the request, what went out
--               meanwhile (the calls of the provider and the publications on the bus, which is taken to
--               be there), and the tables; it writes through Repo and answers by Rsvp. Params is what
--               the parameters make of an event or a task, Advance what completing makes of a task,
--               Effects what a request sends out, and Proper the rules for chains of such steps.
--   Tests       runs at concrete inputs.
--
-- Instants and durations are integers, in nanoseconds, without Go's limits of 64 bits. Loops over
-- what the world answers are structural recursion on the list of answers: `waiting`, `pending`,
-- `awaiting` and `unanswered` say that the list ran out first, and the theorems on bounds say when it
-- cannot.
-- Parameters of the model are the functions of Go's libraries that the code calls on texts and times
-- (strconv.ParseInt, http.ParseTime, strings.TrimSpace, strings.ToLower, strings.Cut,
-- strings.Contains, json.Unmarshal, the RFC 3339 format), the reading of parameters by dux-go
-- (`Wire`), the time zones of the package time, rrule-go, the sorting of Go and of SQL, SQL's match of
-- a text without regard to case, what a provider answers, and what a JSON column of the database makes
-- of a map, with its law `IsJsonColumn`.
--
-- Not modelled: the providers' requests and formats beyond Google's quota gate, lists of calendars
-- and events, the flows of OAuth and the keyring, iCalendar files, the IPC server, its handlers of
-- accounts, files and the desktop and the rendering of its responses, the command line and the user
-- interface; nor goroutines, timers and logging. The ent client is generated, and what the code relies
-- on of it is in Repo.
pub mod Base
pub mod Settings
pub mod Google
pub mod Calendar
pub mod Repo
pub mod Conv
pub mod Recurrence
pub mod Rsvp
pub mod Invitations
pub mod Ipc
pub mod Sync
pub mod Reminders
pub mod Tests
