-- ===== src/Engine/Release/Observe.antt =====
-- internal/engine/release.go: reading the calendar, and recording when a venue released a date.
use resy_snipe.Store.Snipes.{ObservedRelease, upsert_observed}
use resy_snipe.Providers.{CalendarDay}
use resy_snipe.Domain.Intent.{VenueRef}
use resy_snipe.Prelude.{
  List, ℕ, ◌*◌, if◌then◌else◌, Bool, leb, none, false, some, ◌-◌, ◌∷◌, ◌/◌, ◌&&◌, true, [],
}
use resy_snipe.Engine.World.{Env, tick, World}
use resy_snipe.Domain.Dates.{Time, ℤ, Date, Location, second, start_of, pos, date_eq, negate}

-- calendarContainsAvailable.
unfoldable pub calendar_contains_available : List CalendarDay → Date → Bool
calendar_contains_available [] target = false
calendar_contains_available (d ∷ ds) target =
    if date_eq d.date target && d.available then true else calendar_contains_available ds target

abbrev pub day : ℕ
day = 86400 * second

-- int(target.Sub(now).Hours() / 24), which is rounded towards zero.
unfoldable pub days_between : Time → Time → ℤ
days_between now target =
    if leb now target then pos ((target - now) / day) else negate (pos ((now - target) / day))

-- The location that lookupVenueTZ finds, or UTC.
abbrev pub zone_of : Env → VenueRef → Location
zone_of env v = elim (env.venue_tz v) [ none ↦ env.utc | some tz ↦ tz ]

unfoldable pub observation : Env → World → ObservedRelease
observation env w = record {
  venue = w.live.intent.venue;
  observed_local_time = (civil w.now).1;
  days_offset = days_between w.now (start_of w.live.intent.date (zone_of env w.live.intent.venue));
  observed_at = w.now;
}
  where
    open zone_of env w.live.intent.venue use {civil}

-- recordObserved: a failed write is logged and the release goes on.
unfoldable pub record_observed : Env → World → World
unfolding observation tick
record_observed env w =
    if env.store_fails w.step
    then tick env w
    else record (tick env w) { db = upsert_observed w.db (observation env w) }
