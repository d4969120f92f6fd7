-- ===== src/Repo.antt =====
-- core/repo: the queries and mutations over the local database.
pub mod Store
pub mod Events
pub mod Keeps
pub mod Post
pub mod Tasks
pub mod Calendars
pub mod Queries
pub mod Transactions
pub mod Accounts
