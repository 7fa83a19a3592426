-- ===== src/Planner/Drop/Calendar.antt =====
-- ComputeDrop of internal/planner/drop.go counts days on the venue's own calendar.
use resy_snipe.Prelude.Results.{ok, err}
use resy_snipe.Prelude.{ℕ, ◌≡◌, some, suc, zero, none, refl, ap, ◌∙◌}
use resy_snipe.Domain.Dates.{
  Location, add_date, Date, shift_date, WallTime, days_before, midnight, days_after, pos, start_of,
  negate, negsuc, Time,
}
use resy_snipe.Planner.Drop.{compute_drop, invalid_release_days_ahead, missing_location, on_date_of}

-- The day has a midnight in the location, which reads back as that day.
abbrev pub HasMidnight : Location → Date → Type 0
HasMidnight tz d = tz.civil (tz.moment d midnight) ≡ (d, midnight)

days_back :
    (tz : Location) (target : Date) (n : ℕ)
    → HasMidnight tz target
    → add_date tz (start_of target tz) (negate (pos n)) ≡ start_of (days_before target n) tz
unfolding add_date shift_date days_before days_after
days_back tz target zero h = ap (λ (p : Date × WallTime). tz.moment p.0 p.1) h
days_back tz target (suc n) h =
    ap (λ (p : Date × WallTime). tz.moment (days_before p.0 (suc n)) p.1) h

-- The drop of a date that is released a number of days ahead is the release time of day on the day
-- that many calendar days before it in the venue's location, whatever changes of the clock lie
-- between, where those two days have a midnight there; a negative number of days is refused, and so
-- is a missing location.
pub compute_drop-calendar :
    (tz : Location) (target : Date) (release_time : WallTime) (n : ℕ)
    → HasMidnight tz target
    → HasMidnight tz (days_before target n)
    → (compute_drop target (pos n) release_time (some tz)
        ≡ ok (tz.moment (days_before target n) release_time))
      × (compute_drop target (negsuc n) release_time (some tz) ≡ err invalid_release_days_ahead)
      × (compute_drop target (pos n) release_time none ≡ err missing_location)
unfolding compute_drop
compute_drop-calendar tz target release_time n h h' = (
  ap (λ (t : Time). ok (on_date_of tz t release_time)) (days_back tz target n h)
      ∙ ap (λ (p : Date × WallTime). ok (tz.moment p.0 release_time)) h',
  refl,
  refl,
)
