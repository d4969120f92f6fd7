-- ===== src/Reminders.antt =====
-- core/internal/reminders/engine.go and core/repo/reminders.go: desktop reminders.
pub mod Triggers
pub mod States
pub mod Firing
