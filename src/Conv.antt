-- ===== src/Conv.antt =====
-- core/internal/eventconv and core/internal/taskconv: domain values and stored rows.
pub mod Events
pub mod Tasks
