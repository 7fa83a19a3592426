-- ===== src/Planner/Strategy/Choice.antt =====
-- Which strategy SelectStrategy of internal/planner/strategy.go chooses.
use resy_snipe.Planner.Strategy.Shown.{IsShown, IsUnset}
use resy_snipe.Planner.Drop.{on_date_of, probe_width, probe_lead}
use resy_snipe.Domain.Intent.{
  ReleaseStrategy, continuous_release, explicit_release, discovered_release,
}
use resy_snipe.Prelude.{◌≡◌, some, ◌<◌, List, ◌≢◌, ◌⊎◌, none, ◌+◌, ◌≤◌}
use resy_snipe.Prelude.Results.{Result, ok, err}
use resy_snipe.Domain.Dates.{Location, start_of, Time, add_date, negate, midnight}
use resy_snipe.Planner.Strategy.{StrategyInput, StrategyError, Note, target_in_past}

abbrev pub IsPast : StrategyInput → Location → Type 0
IsPast s tz = start_of s.goal.date tz < on_date_of tz s.now midnight

-- The date is today or later in the location.
abbrev pub IsCurrent : StrategyInput → Location → Type 0
IsCurrent s tz = on_date_of tz s.now midnight ≤ start_of s.goal.date tz

-- The decision table of the package's documentation, over what SelectStrategy returns.
pub data Chooses (s : StrategyInput) (tz : Location)
    : Result StrategyError (ReleaseStrategy × List Note) → Type 0 where
  refuses : IsPast s tz → Chooses s tz (err target_in_past)
  chases :
      {until : Time} {notes : List Note}
      → IsCurrent s tz
      → IsShown s.calendar_snapshot.days s.goal.date
      → ((s.continuous_until ≢ 0) × (until ≡ s.continuous_until))
        ⊎ ((s.continuous_until ≡ 0)
            × (until ≡ on_date_of tz s.now (record { hour = 23; min = 59; sec = 59 })))
      → Chooses s tz (ok (continuous_release until, notes))
  observed :
      {at : Time} {notes : List Note}
      → IsCurrent s tz
      → (IsShown s.calendar_snapshot.days s.goal.date → ⊥)
      → s.observed_release_avg ≡ some at
      → Chooses s tz (ok (explicit_release at, notes))
  configured :
      {at : Time} {notes : List Note}
      → IsCurrent s tz
      → (IsShown s.calendar_snapshot.days s.goal.date → ⊥)
      → s.observed_release_avg ≡ none
      → (IsUnset s.release_config → ⊥)
      → at
        ≡ on_date_of tz
            (add_date tz (start_of s.goal.date tz) (negate s.release_config.days_ahead))
            s.release_config.time_local
      → Chooses s tz (ok (explicit_release at, notes))
  probes :
      {from until : Time} {notes : List Note}
      → IsCurrent s tz
      → (IsShown s.calendar_snapshot.days s.goal.date → ⊥)
      → s.observed_release_avg ≡ none
      → IsUnset s.release_config
      → until ≡ from + probe_width
      → s.now ≤ from + probe_lead
      → Chooses s tz (ok (discovered_release from until, notes))

configured_drop : StrategyInput → Location → Time
configured_drop s tz =
    on_date_of tz (add_date tz (start_of s.goal.date tz) (negate s.release_config.days_ahead))
      s.release_config.time_local
