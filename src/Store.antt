-- ===== src/Store.antt =====
-- internal/store: the tables, and the operations on them.
pub mod Snipes
pub mod Idempotency
pub mod Accounts
pub mod Tokens
pub mod Cache
pub mod Users
pub mod Quests
