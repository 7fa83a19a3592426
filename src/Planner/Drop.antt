-- ===== src/Planner/Drop.antt =====
-- internal/planner/drop.go: the instant at which a venue releases a date.
pub mod Calendar
use resy_snipe.Prelude.Results.{Result, err, ok}
use resy_snipe.Prelude.{ℕ, Bool, ◌*◌, ◌-◌, Option, ◌+◌, false, some, true, if◌then◌else◌, none}
use resy_snipe.Domain.Dates.{
  Date, ℤ, Location, Time, WallTime, minute, pos, second, negsuc, add_date, start_of, negate,
}

pub data DropError : Type 0 where
  missing_location invalid_release_days_ahead : DropError

abbrev pub is_negative : ℤ → Bool
is_negative (pos n) = false
is_negative (negsuc n) = true

-- The anchor's date at a time of day (the time.Date call of ComputeDrop).
abbrev pub on_date_of : Location → Time → WallTime → Time
on_date_of loc t w = loc.moment (loc.civil t).0 w

-- A nil location is `none`.
unfoldable pub compute_drop : Date → ℤ → WallTime → Option Location → Result DropError Time
compute_drop target days_ahead release_time none = err missing_location
compute_drop target days_ahead release_time (some tz) =
    if is_negative days_ahead
    then err invalid_release_days_ahead
    else ok (on_date_of tz (add_date tz (start_of target tz) (negate days_ahead)) release_time)

abbrev pub probe_lead : ℕ
probe_lead = 90 * second

abbrev pub probe_width : ℕ
probe_width = 5 * minute

unfoldable pub discovered_probe_window : Time → Time × Time
discovered_probe_window approx_drop =
    let probe_from = approx_drop - probe_lead in (probe_from, probe_from + probe_width)
