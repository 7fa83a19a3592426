-- ===== src/Domain/Dates.antt =====
-- internal/domain/date.go and the instants of Go's time package. An instant is the number of
-- nanoseconds since Go's zero time, so IsZero is a test against 0; a duration is a number of
-- nanoseconds, and `t.Sub(u) <= 0` reads `t ≤ u`.
use resy_snipe.Prelude.{
  ℕ, zero, suc, ◌-◌, ◌*◌, ◌%◌, Bool, not, ◌&&◌, ◌||◌, String, ltb, ◌==◌, if◌then◌else◌, ◌+◌,
}

abbrev pub Time : Type 0
Time = ℕ

abbrev pub millisecond : ℕ
millisecond = 1_000_000

abbrev pub second : ℕ
second = 1_000_000_000

abbrev pub minute : ℕ
minute = 60 * second

abbrev pub is_zero : Time → Bool
is_zero t = t == 0

pub record Date : Type 0 where
  pub year : ℕ
  pub month : ℕ
  pub day : ℕ

-- `a == b` on the struct.
abbrev pub date_eq : Date → Date → Bool
date_eq a b = (a.year == b.year) && (a.month == b.month) && (a.day == b.day)

abbrev pub date_is_zero : Date → Bool
date_is_zero d = date_eq d (record { year = 0; month = 0; day = 0 })

pub record WallTime : Type 0 where
  pub hour : ℕ
  pub min : ℕ
  pub sec : ℕ

abbrev pub wall_eq : WallTime → WallTime → Bool
wall_eq a b = (a.hour == b.hour) && (a.min == b.min) && (a.sec == b.sec)

-- wallTimeAfter of goal.go, and wallTimeAfterPub of the planner.
unfoldable pub wall_time_after : WallTime → WallTime → Bool
wall_time_after a b =
    if not (a.hour == b.hour)
    then ltb b.hour a.hour
    else if not (a.min == b.min)
    then ltb b.min a.min
    else ltb b.sec a.sec

abbrev pub midnight : WallTime
midnight = record { hour = 0; min = 0; sec = 0 }

-- A time.Location is data of the tz database: `moment` is time.Date in that location, and `civil`
-- reads the date and the time of day of an instant there.
pub record Location : Type 0 where
  pub tz_name : String
  pub moment : Date → WallTime → Time
  pub civil : Time → Date × WallTime

-- Date.In: the start of the day in a location.
abbrev pub start_of : Date → Location → Time
start_of d loc = loc.moment d midnight

is_leap : ℕ → Bool
is_leap y = ((y % 4 == 0) && not (y % 100 == 0)) || (y % 400 == 0)

days_in_month : ℕ → ℕ → ℕ
unfolding is_leap
days_in_month y m =
    if m == 2
    then (if is_leap y then 29 else 28)
    else if (m == 4) || (m == 6) || (m == 9) || (m == 11)
    then 30
    else 31

day_before : Date → Date
unfolding days_in_month
day_before d =
    if ltb 1 d.day
    then record d { day = d.day - 1 }
    else if ltb 1 d.month
    then record d { month = d.month - 1; day = days_in_month d.year (d.month - 1) }
    else record { year = d.year - 1; month = 12; day = 31 }

day_after : Date → Date
unfolding days_in_month
day_after d =
    if ltb d.day (days_in_month d.year d.month)
    then record d { day = d.day + 1 }
    else if ltb d.month 12
    then record d { month = d.month + 1; day = 1 }
    else record { year = d.year + 1; month = 1; day = 1 }

unfoldable pub days_before : Date → ℕ → Date
unfolding day_before
days_before d zero = d
days_before d (suc n) = days_before (day_before d) n

unfoldable pub days_after : Date → ℕ → Date
unfolding day_after
days_after d zero = d
days_after d (suc n) = days_after (day_after d) n

-- A Go int: `negsuc n` is -(n + 1).
pub data ℤ : Type 0 where
  pos : ℕ → ℤ
  negsuc : ℕ → ℤ

abbrev pub negate : ℤ → ℤ
negate (pos zero) = pos zero
negate (pos (suc n)) = negsuc n
negate (negsuc n) = pos (suc n)

-- The calendar part of AddDate(0, 0, k): calendar days, forward or back.
unfoldable pub shift_date : Date → ℤ → Date
unfolding days_before days_after
shift_date d (pos n) = days_after d n
shift_date d (negsuc n) = days_before d (suc n)

-- t.AddDate(0, 0, k) of an instant read in a location: the time of day there is kept.
unfoldable pub add_date : Location → Time → ℤ → Time
unfolding shift_date
add_date loc t k = let (d, w) = loc.civil t in loc.moment (shift_date d k) w
