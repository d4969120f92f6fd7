-- ===== src/Calendar.antt =====
-- core/internal/calendar: the domain types and the pure functions on them.
pub mod Types
pub mod Json
pub mod Convert
pub mod Color
pub mod Rsvp
