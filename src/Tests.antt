-- ===== src/Tests.antt =====
-- Runs of the models of each part at concrete inputs.
mod Google
mod Data
mod Sync
mod Reminders
mod Queries
mod Accounts
mod Invites
mod GoogleEvents
mod Requests
mod GoogleWrites
mod Edits
mod Mirror
