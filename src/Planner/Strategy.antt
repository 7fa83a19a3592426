-- ===== src/Planner/Strategy.antt =====
-- internal/planner/strategy.go: the choice among the three release strategies. The notes, which are
-- formatted text in the source, are kept as data.
pub mod Choice
pub mod Shown
use resy_snipe.Providers.{CalendarDay, Calendar}
use resy_snipe.Domain.Intent.{
  ReleaseStrategy, Venue, VenueRef, discovered_release, as_ref, explicit_release,
  continuous_release,
}
use resy_snipe.Prelude.Results.{Result, err, ok}
use resy_snipe.Domain.Goal.{Goal}
use resy_snipe.Domain.Dates.{
  Date, ℤ, Location, Time, WallTime, add_date, midnight, pos, start_of, wall_eq, negsuc, is_zero,
  date_eq, negate,
}
use resy_snipe.Prelude.{
  Bool, List, some, ◌&&◌, false, if◌then◌else◌, true, Option, not, zero, ◌∷◌, [], ltb, ◌-◌, ◌+◌,
  none,
}
use resy_snipe.Planner.Drop.{probe_lead, probe_width, on_date_of}

pub record VenueReleaseConfig : Type 0 where
  pub days_ahead : ℤ
  pub time_local : WallTime

abbrev pub is_zero_int : ℤ → Bool
is_zero_int (pos zero) = true
is_zero_int _ = false

abbrev pub config_is_zero : VenueReleaseConfig → Bool
config_is_zero c = is_zero_int c.days_ahead && wall_eq c.time_local midnight

pub record StrategyInput : Type 0 where
  pub goal : Goal
  pub venue : Venue
  pub now : Time
  pub calendar_snapshot : Calendar
  pub observed_release_avg : Option Time
  pub release_config : VenueReleaseConfig
  pub continuous_until : Time

pub data StrategyError : Type 0 where
  venue_missing_tz target_in_past : StrategyError

pub data Note : Type 0 where
  continuous_note : Date → Time → Note
  explicit_observed_note : Time → Note
  explicit_config_note : Time → VenueReleaseConfig → Note
  discovered_note : VenueRef → Time → Time → Note
  signing_note : Note

-- The first entry for the date decides.
unfoldable pub calendar_shows_bookable : List CalendarDay → Date → Bool
calendar_shows_bookable [] date = false
calendar_shows_bookable (d ∷ ds) date =
    if date_eq d.date date then d.available else calendar_shows_bookable ds date

unfoldable pub start_of_day_in : Time → Location → Time
start_of_day_in now loc = on_date_of loc now midnight

unfoldable pub end_of_day_in : Time → Location → Time
end_of_day_in now loc = on_date_of loc now (record { hour = 23; min = 59; sec = 59 })

unfoldable pub best_effort_explicit_drop : StrategyInput → Location → Time
best_effort_explicit_drop s tz = elim s.observed_release_avg [
  | some at ↦ at
  | none ↦
      let target = start_of s.goal.date tz in
      if not (config_is_zero s.release_config)
      then on_date_of tz (add_date tz target (negate s.release_config.days_ahead))
          s.release_config.time_local
      else add_date tz target (negsuc 0)
]

unfoldable pub best_effort_discovered_probe : StrategyInput → Location → Time × Time
best_effort_discovered_probe s tz =
    let anchor = add_date tz (start_of s.goal.date tz) (negsuc 0) in
    let midnight_before = on_date_of tz anchor midnight in
    let drop_guess = if ltb midnight_before s.now then s.now else midnight_before in
    let from = drop_guess - probe_lead in (from, from + probe_width)

-- Rules 2 and 3, when the calendar does not show the date.
unfoldable pub select_unreleased : StrategyInput → Location → ReleaseStrategy × List Note
select_unreleased s tz =
    let at = best_effort_explicit_drop s tz in
    let (from, until) = best_effort_discovered_probe s tz in
    let discovered : ReleaseStrategy × List Note =
      (discovered_release from until, discovered_note (as_ref s.venue) from until ∷ []) in
    elim s.observed_release_avg [
      | some observed ↦ (explicit_release at, explicit_observed_note at ∷ [])
      | none ↦
          if not (config_is_zero s.release_config)
          then (explicit_release at, explicit_config_note at s.release_config ∷ [])
          else discovered
    ]

unfoldable pub select_in :
    StrategyInput → Location → Result StrategyError (ReleaseStrategy × List Note)
select_in s tz =
    let until = if is_zero s.continuous_until then end_of_day_in s.now tz else s.continuous_until in
    if ltb (start_of s.goal.date tz) (start_of_day_in s.now tz)
    then err target_in_past
    else if calendar_shows_bookable s.calendar_snapshot.days s.goal.date
    then ok (continuous_release until, continuous_note s.goal.date until ∷ [])
    else ok (select_unreleased s tz)

unfoldable pub select_strategy : StrategyInput → Result StrategyError (ReleaseStrategy × List Note)
select_strategy s = elim s.venue.tz [ none ↦ err venue_missing_tz | some tz ↦ select_in s tz ]
