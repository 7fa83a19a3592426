-- ===== src/Domain.antt =====
-- internal/domain: the values that every other package speaks about.
pub mod Status
pub mod Dates
pub mod Intent
pub mod Snipe
pub mod Goal
pub mod Idempotency
pub mod Plan
