-- ===== src/Planner/Schedule/Wake.antt =====
-- The plan's drop moment and the engine's waking time are one.
use resy_snipe.Prelude.Results.{ok}
use resy_snipe.Engine.World.{World}
use resy_snipe.Engine.Run.{scheduled_at_from_intent}
use resy_snipe.Prelude.{List, ◌≤◌, le→leb, ◌≡◌, All, arith, some, ◌∷◌, [], length, length-map, refl}
use resy_snipe.Planner.Schedule.{center_of, fire_schedule_for, at_once}
use resy_snipe.Domain.Intent.{
  ReleaseStrategy, explicit_release, SlotPreference, discovered_release, continuous_release,
}
use resy_snipe.Domain.Dates.{Time}

-- A probe window does not end before it begins.
abbrev pub IsForward : ReleaseStrategy → Type 0
IsForward (explicit_release at) = Unit
IsForward (discovered_release from to) = from ≤ to
IsForward (continuous_release end) = Unit

abbrev pub IsDue : Time → ReleaseStrategy → Time → Type 0
IsDue drop (explicit_release at) t = t ≡ at
IsDue drop (discovered_release from to) t = (from ≤ t) × (t ≤ to)
IsDue drop (continuous_release end) t = t ≡ drop

All-at_once :
    (P : Time → Type 0) (t : Time) (slots : List SlotPreference) → P t → All P (at_once slots t)
All-at_once P t [] p = tt
All-at_once P t (s ∷ slots) p = (p, All-at_once P t slots p)

center_of-between :
    (from to : Time) → from ≤ to → (from ≤ center_of from to) × (center_of from to ≤ to)
unfolding center_of
center_of-between from to h = rw (le→leb from to h) (omega (arith, h), omega (arith, h))

-- The drop moment of a strategy's schedule is the time at which the engine, run at the moment of
-- planning, wakes for that strategy. The schedule has an entry for each slot: the release itself, the
-- moment of planning for a continuous release, and a time within the probe window for a discovered
-- one whose window does not end before it begins.
pub fire_schedule_for-wakes :
    (st : ReleaseStrategy) (slots : List SlotPreference) (w : World)
    → IsForward st
    → (scheduled_at_from_intent w (some st) ≡ ok (fire_schedule_for (some st) slots w.now).0)
      × (length (fire_schedule_for (some st) slots w.now).1 ≡ length slots)
      × All
          (IsDue (fire_schedule_for (some st) slots w.now).0 st)
          (fire_schedule_for (some st) slots w.now).1
unfolding fire_schedule_for scheduled_at_from_intent
fire_schedule_for-wakes (explicit_release at) slots w h =
    (refl, length-map _ slots, All-at_once _ at slots refl)
fire_schedule_for-wakes (discovered_release from to) slots w h = (
  refl,
  length-map _ slots,
  All-at_once _ (center_of from to) slots (center_of-between from to h),
)
fire_schedule_for-wakes (continuous_release end) slots w h =
    (refl, length-map _ slots, All-at_once _ w.now slots refl)
