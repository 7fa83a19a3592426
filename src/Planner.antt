-- ===== src/Planner.antt =====
-- internal/planner: from a goal and a venue to a plan.
pub mod Slots
pub mod Strategy
pub mod Drop
pub mod Schedule
pub mod Build
