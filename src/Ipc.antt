-- ===== src/Ipc.antt =====
-- core/internal/ipc: the requests that the user interface and the command line send to the daemon.
pub mod Params
pub mod Handler
pub mod Events
pub mod Advance
pub mod Tasks
pub mod Calendars
pub mod Effects
pub mod Proper
pub mod Requests
