-- ===== src/Planner/Slots.antt =====
-- internal/planner/slots.go: a time window becomes the list of slots to try, in race order.
use resy_snipe.Domain.Intent.{SlotPreference}
use resy_snipe.Prelude.Results.{Result, err, ok}
use resy_snipe.Prelude.{
  List, ℕ, String, [], reverse, ◌*◌, ◌+◌, ◌/◌, suc, ◌%◌, ◌-◌, ◌∷◌, if◌then◌else◌, map, ◌++◌, leb,
  ◌==◌, zero,
}
use resy_snipe.Domain.Goal.{Constraints, TimePriority, TimeWindow, later}
use resy_snipe.Domain.Dates.{WallTime, wall_time_after}
pub mod Times
pub mod Order

pub data SlotError : Type 0 where
  invalid_window : SlotError

-- SlotStepV1, in minutes.
abbrev pub slot_step : ℕ
slot_step = 30

unfoldable pub minutes_of_day : WallTime → ℕ
minutes_of_day w = w.hour * 60 + w.min

unfoldable pub wall_time_from_minutes : ℕ → ℕ → WallTime
wall_time_from_minutes m sec = record { hour = m / 60; min = m % 60; sec = sec }

-- The loop of enumerateTimes from minute `m` on, for at most `fuel` rounds.
unfoldable pub walk : ℕ → ℕ → ℕ → ℕ → List WallTime
walk zero m end_min sec = []
walk (suc fuel) m end_min sec =
    let rest = walk fuel (m + slot_step) end_min sec in
    if leb m end_min then wall_time_from_minutes m sec ∷ rest else []

abbrev pub order_by : TimePriority → List WallTime → List WallTime
order_by later asc = reverse asc
order_by _ asc = asc

unfoldable pub enumerate_times : TimeWindow → List WallTime
enumerate_times w =
    let start_min = minutes_of_day w.start in
    let end_min = minutes_of_day w.end in
    let asc = walk (end_min + 1 - start_min) start_min end_min w.start.sec in
    if start_min == end_min
    then wall_time_from_minutes start_min w.start.sec ∷ []
    else order_by w.priority asc

unfoldable pub normalize_tables : Constraints → List String
normalize_tables c = elim c.table_types [
  | [] ↦ "" ∷ []
  | t ∷ ts ↦ if c.any_table then "" ∷ [] else t ∷ ts
]

abbrev pub slot_at : WallTime → String → SlotPreference
slot_at t tbl = record { time = t; table_type = tbl }

abbrev pub with_tables : WallTime → List String → List SlotPreference
with_tables t tables = map (slot_at t) tables

-- The two nested loops.
unfoldable pub cross : List WallTime → List String → List SlotPreference
cross [] tables = []
cross (t ∷ ts) tables = with_tables t tables ++ cross ts tables

unfoldable pub expand_slots : TimeWindow → Constraints → Result SlotError (List SlotPreference)
expand_slots w c =
    if wall_time_after w.start w.end
    then err invalid_window
    else ok (cross (enumerate_times w) (normalize_tables c))
