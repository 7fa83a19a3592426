-- ===== src/Planner/Schedule.antt =====
-- fireScheduleFor and projectSlots of internal/planner/plan.go: when the attempts of a plan are due.
use resy_snipe.Domain.Intent.{
  ReleaseStrategy, SlotPreference, explicit_release, continuous_release, discovered_release,
}
use resy_snipe.Prelude.{List, Option, if◌then◌else◌, leb, map, some, ◌+◌, [], ◌-◌, none, ◌/◌}
use resy_snipe.Domain.Dates.{Time, Date, Location}
pub mod Wake

-- projectSlots; a nil location is `none`.
unfoldable pub project_slots : List SlotPreference → Date → Option Location → List Time
project_slots slots date none = []
project_slots slots date (some tz) = map (λ s. tz.moment date s.time) slots

-- v.ProbeFrom.Add(v.ProbeUntil.Sub(v.ProbeFrom) / 2): the division is rounded towards zero.
unfoldable pub center_of : Time → Time → Time
center_of from to = if leb from to then from + (to - from) / 2 else from - (from - to) / 2

abbrev pub at_once : List SlotPreference → Time → List Time
at_once slots t = map (λ s. t) slots

-- fireScheduleFor: the drop moment and the schedule. The result of projectSlots is not used there.
unfoldable pub fire_schedule_for :
    Option ReleaseStrategy → List SlotPreference → Time → Time × List Time
fire_schedule_for (some (explicit_release at)) slots now = (at, at_once slots at)
fire_schedule_for (some (continuous_release end)) slots now = (now, at_once slots now)
fire_schedule_for (some (discovered_release from to)) slots now =
    (from, at_once slots (center_of from to))
fire_schedule_for none slots now = (now, [])
