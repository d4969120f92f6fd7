-- ===== src/Google.antt =====
-- The Google provider's request pacing: core/internal/providers/google/quota.go.
pub mod Quota
pub mod Events
pub mod Calendars
