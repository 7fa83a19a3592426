-- ===== src/Engine.antt =====
-- internal/engine: the state machine of a snipe, its release loops and the booking race.
pub mod World
pub mod Transition
pub mod Progress
pub mod Release
pub mod Run
pub mod Race
pub mod Subscribe
