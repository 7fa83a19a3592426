-- ===== src/Service.antt =====
-- internal/service: the calls that the transports make, over the stores, the planner and the engine.
pub mod Errors
pub mod State
pub mod Frame
pub mod Planning
pub mod Creating
pub mod Reading
pub mod Canceling
pub mod Subscribing
pub mod Authority
pub mod Accounts
pub mod Tokens
