-- ===== src/Planner/Build.antt =====
-- BuildPlan of internal/planner/plan.go: strategy, slots, schedule and hash in one plan.
use resy_snipe.Providers.{Calendar}
use resy_snipe.Domain.Dates.{Time, pos, midnight}
use resy_snipe.Planner.Slots.{SlotError, expand_slots}
use resy_snipe.Prelude.Results.{Result, ◌>>=◌, map_err, ok}
use resy_snipe.Domain.Intent.{ReleaseStrategy, Venue, SlotPreference}
use resy_snipe.Prelude.{Option, List, some, false, none, ◌++◌, ◌∷◌, []}
use resy_snipe.Domain.Goal.{Goal}
use resy_snipe.Domain.Plan.{Formats, Plan, with_hash, plan_hash_version_v1}
use resy_snipe.Planner.Strategy.{
  StrategyError, StrategyInput, VenueReleaseConfig, Note, select_strategy, signing_note,
}
use resy_snipe.Planner.Schedule.{fire_schedule_for}
pub mod Hash

-- A nil ReleaseConfig is `none`.
pub record PlanInput : Type 0 where
  pub goal : Goal
  pub venue : Venue
  pub now : Time
  pub calendar_snapshot : Calendar
  pub observed_release_avg : Option Time
  pub release_config : Option VenueReleaseConfig
  pub continuous_until : Time

pub data PlanError : Type 0 where
  strategy_failed : StrategyError → PlanError
  slots_failed : SlotError → PlanError

-- The zero value of the configuration stands for a nil one.
abbrev pub config_or_zero : Option VenueReleaseConfig → VenueReleaseConfig
config_or_zero none = record { days_ahead = pos 0; time_local = midnight }
config_or_zero (some c) = c

abbrev pub strategy_input : PlanInput → StrategyInput
strategy_input p = record {
  goal = p.goal;
  venue = p.venue;
  now = p.now;
  calendar_snapshot = p.calendar_snapshot;
  observed_release_avg = p.observed_release_avg;
  release_config = config_or_zero p.release_config;
  continuous_until = p.continuous_until;
}

-- Steps 3 to 5, with the hash still to be computed.
unfoldable pub assemble : PlanInput → ReleaseStrategy → List Note → List SlotPreference → Plan Note
unfolding fire_schedule_for
assemble p strategy notes slots =
    let (drop, schedule) = fire_schedule_for (some strategy) slots p.now in
    record {
      goal = p.goal;
      venue = p.venue;
      drop_moment = drop;
      strategy = some strategy;
      fire_schedule = schedule;
      signing_required = false;
      hash = "";
      notes = notes ++ signing_note ∷ [];
      plan_hash_version = plan_hash_version_v1;
      computed_at = p.now;
    }

-- BuildPlan.
unfoldable pub build_plan : Formats → PlanInput → Result PlanError (Plan Note)
unfolding assemble
build_plan fmt p = do
  chosen ← map_err strategy_failed (select_strategy (strategy_input p))
  slots ← map_err slots_failed (expand_slots p.goal.time_prefs p.goal.constraints)
  ok (with_hash fmt (assemble p chosen.0 chosen.1 slots))
