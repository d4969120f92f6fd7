-- ===== src/Sync.antt =====
-- core/internal/sync/engine.go
pub mod Schedule
pub mod Changes
pub mod Pages
pub mod Account
pub mod Records
