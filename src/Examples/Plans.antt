-- ===== src/Examples/Plans.antt =====
-- Tests of internal/planner.
use resy_snipe.Planner.Drop.{compute_drop, invalid_release_days_ahead, missing_location}
use resy_snipe.Planner.Drop.Calendar.{compute_drop-calendar}
use resy_snipe.Planner.Schedule.Wake.{IsDue, fire_schedule_for-wakes}
use resy_snipe.Planner.Schedule.{fire_schedule_for}
use resy_snipe.Engine.Run.{scheduled_at_from_intent}
use resy_snipe.Prelude.Results.{ok, err}
use resy_snipe.Planner.Slots.Times.{IsBetween}
use resy_snipe.Domain.Intent.{SlotPreference, discovered_release}
use resy_snipe.Planner.Slots.Order.{enumerate_times_overrun, rounds, expand_slots_bounds}
use resy_snipe.Prelude.{
  List, none, ◌∷◌, ◌≡◌, [], arith, false, true, refl, some, length, ◌*◌, All, String, ℕ, get_elem?,
  ◌+◌,
}
use resy_snipe.Examples.{at_clock, plain_utc, dinner_date, venue, world, dinner}
use resy_snipe.Domain.Dates.{wall_time_after, WallTime, pos, second, days_before, negsuc}
use mathlib.Core.List.{Mem}
use resy_snipe.Planner.Slots.{enumerate_times, minutes_of_day, expand_slots}
use resy_snipe.Planner.Strategy.{StrategyInput}
use resy_snipe.Domain.Goal.{Constraints, TimeWindow, later}

abbrev evening : TimeWindow
evening = record { start = at_clock 18 30 30; end = at_clock 20 0 0; priority = later }

abbrev tables : Constraints
tables = record { table_types = "Patio" ∷ "Bar" ∷ []; any_table = false }

expand_slots_bounds_example :
    (slots : List SlotPreference) × (asked : List String) × (expand_slots evening tables ≡ ok slots)
    × (asked ≡ tables.table_types)
    × (length slots
        ≡ rounds (minutes_of_day (at_clock 18 30 30)) (minutes_of_day (at_clock 20 0 0))
          * length asked)
    × ((i j : ℕ) (t : WallTime) (tbl : String)
        → get_elem? (enumerate_times evening) i ≡ some t
        → get_elem? asked j ≡ some tbl
        → get_elem? slots (i * length asked + j) ≡ some (record { time = t; table_type = tbl }))
    × All
        (λ s.
          IsBetween (minutes_of_day (at_clock 18 30 30)) (minutes_of_day (at_clock 20 0 0)) s.time)
        slots
unfolding wall_time_after
expand_slots_bounds_example = expand_slots_bounds evening tables (omega arith) (omega arith) refl

-- 20:00:30 is listed for a window that ends at 20:00:00.
enumerate_times_overrun_example :
    (t : WallTime) × Mem t (enumerate_times evening) × (wall_time_after t (at_clock 20 0 0) ≡ true)
unfolding wall_time_after minutes_of_day
enumerate_times_overrun_example =
    enumerate_times_overrun evening (omega arith) (omega arith) refl (omega arith) refl

abbrev input : StrategyInput
input = record {
  goal = record {
    venue_query = none;
    date = dinner_date;
    party = pos 2;
    time_prefs = evening;
    account_id = "acc_1";
    constraints = tables;
  };
  venue = record { provider = "resy"; ref = "5286"; name = "Carbone"; tz = some plain_utc };
  now = 86400 * second;
  calendar_snapshot = record { venue = venue; days = [] };
  observed_release_avg = none;
  release_config = record { days_ahead = pos 30; time_local = at_clock 10 0 0 };
  continuous_until = 0;
}

compute_drop-calendar_example :
    (compute_drop dinner_date (pos 20) (at_clock 10 0 0) (some plain_utc)
      ≡ ok (plain_utc.moment (days_before dinner_date 20) (at_clock 10 0 0)))
    × (compute_drop dinner_date (negsuc 20) (at_clock 10 0 0) (some plain_utc)
        ≡ err invalid_release_days_ahead)
    × (compute_drop dinner_date (pos 20) (at_clock 10 0 0) none ≡ err missing_location)
unfolding days_before
compute_drop-calendar_example =
    compute_drop-calendar plain_utc dinner_date (at_clock 10 0 0) 20 refl refl

fire_schedule_for-wakes_example :
    (scheduled_at_from_intent world (some (discovered_release 10 20))
      ≡ ok (fire_schedule_for (some (discovered_release 10 20)) dinner.slot_prefs 50).0)
    × (length (fire_schedule_for (some (discovered_release 10 20)) dinner.slot_prefs 50).1 ≡ 1)
    × All
        (IsDue
          (fire_schedule_for (some (discovered_release 10 20)) dinner.slot_prefs 50).0
          (discovered_release 10 20))
        (fire_schedule_for (some (discovered_release 10 20)) dinner.slot_prefs 50).1
fire_schedule_for-wakes_example =
    fire_schedule_for-wakes (discovered_release 10 20) dinner.slot_prefs world (omega arith)
