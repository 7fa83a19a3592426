-- ===== src/Planner/Slots/Times.antt =====
-- The times that enumerateTimes of internal/planner/slots.go lists.
use native.Mathlib.Bridge.{le_prop}
use mathlib.Core.HLevel.{×_prop}
use mathlib.Core.List.{Mem, Pairwise, mem-cons_self, mem-cons_of_mem}
use resy_snipe.Domain.Dates.{WallTime}
use resy_snipe.Prelude.{
  ℕ, List, ◌<◌, ◌≤◌, ◌+◌, ◌≡◌, [], suc, arith, zero, ◌∷◌, refl, length, ◌*◌, All, ap, All-mem,
}
use resy_snipe.Planner.Slots.{walk, slot_step, wall_time_from_minutes, minutes_of_day}

-- `count` wall times, one slot step apart, from minute `m` on.
unfoldable pub progression : ℕ → ℕ → ℕ → List WallTime
progression m zero sec = []
progression m (suc count) sec = wall_time_from_minutes m sec ∷ progression (m + slot_step) count sec

-- With a round of fuel for each of them, the loop lists exactly the times up to the window's end.
pub walk-progression :
    (fuel m end_min sec count : ℕ)
    → end_min < m + slot_step * count
    → m + slot_step * count ≤ end_min + slot_step
    → count ≤ fuel
    → walk fuel m end_min sec ≡ progression m count sec
unfolding walk progression
walk-progression zero m end_min sec zero low high f = refl
walk-progression zero m end_min sec (suc count) low high f = absurd (omega arith)
walk-progression (suc fuel) m end_min sec zero low high f = ground arith
walk-progression (suc fuel) m end_min sec (suc count) low high f =
    ground (arith, walk-progression fuel (m + slot_step) end_min sec count)

pub length-progression : (m count sec : ℕ) → length (progression m count sec) ≡ count
unfolding progression
length-progression m zero sec = refl
length-progression m (suc count) sec = ap suc (length-progression (m + slot_step) count sec)

pub minutes_of_day-wall_time_from_minutes :
    (m sec : ℕ) → minutes_of_day (wall_time_from_minutes m sec) ≡ m
unfolding minutes_of_day wall_time_from_minutes
minutes_of_day-wall_time_from_minutes m sec = omega arith

-- A time lies in a range of minutes.
abbrev pub IsBetween : ℕ → ℕ → WallTime → Type 0
IsBetween lo hi t = (lo ≤ minutes_of_day t) × (minutes_of_day t ≤ hi)

pub progression-IsBetween :
    (lo hi m count sec : ℕ)
    → lo ≤ m
    → m + slot_step * count ≤ hi + slot_step
    → All (IsBetween lo hi) (progression m count sec)
unfolding progression
progression-IsBetween lo hi m zero sec low high = tt
progression-IsBetween lo hi m (suc count) sec low high = (
  omega (arith, minutes_of_day-wall_time_from_minutes m sec),
  progression-IsBetween lo hi (m + slot_step) count sec (omega arith) (omega arith),
)

abbrev pub IsBefore : WallTime → WallTime → Type 0
IsBefore a b = minutes_of_day a < minutes_of_day b

pub progression-Pairwise : (m count sec : ℕ) → Pairwise IsBefore (progression m count sec)
unfolding progression
progression-Pairwise m zero sec = Pairwise.nil
progression-Pairwise m (suc count) sec =
    Pairwise.cons first (progression-Pairwise (m + slot_step) count sec)
  where
    later_on :
        All
          (IsBetween (m + slot_step) (m + slot_step + slot_step * count))
          (progression (m + slot_step) count sec)
    later_on = progression-IsBetween _ _ (m + slot_step) count sec (omega arith) (omega arith)

    first :
        (t : WallTime)
        → Mem t (progression (m + slot_step) count sec)
        → IsBefore (wall_time_from_minutes m sec) t
    first t h =
        let bounds =
          All-mem (IsBetween (m + slot_step) (m + slot_step + slot_step * count))
            (λ a. ×_prop le_prop le_prop) _ later_on h in
        omega (arith, minutes_of_day-wall_time_from_minutes m sec)

-- The last of the times stands at its own minute.
pub mem-progression_last :
    (m count sec : ℕ)
    → Mem (wall_time_from_minutes (m + slot_step * count) sec) (progression m (suc count) sec)
unfolding progression
mem-progression_last m zero sec =
    let e : m + slot_step * zero ≡ m = omega arith in rw e mem-cons_self
mem-progression_last m (suc count) sec =
    let e : m + slot_step * suc count ≡ m + slot_step + slot_step * count = omega arith in
    rw e (mem-cons_of_mem _ (mem-progression_last (m + slot_step) count sec))
