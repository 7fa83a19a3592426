-- ===== src/Planner/Build/Hash.antt =====
-- When two runs of BuildPlan of internal/planner/plan.go give one hash.
use mathlib.Core.Bool.{false≢true}
use resy_snipe.Planner.Drop.{on_date_of}
use resy_snipe.Domain.Goal.{Goal}
use resy_snipe.Planner.Schedule.{fire_schedule_for}
use text.Mathlib.TextLemmas.{append_cancel_left}
use resy_snipe.Domain.Plan.Injective.{IsReadable, drop_moment_injective}
use resy_snipe.Domain.Dates.{Time, Location, add_date, start_of, negsuc, midnight, is_zero}
use resy_snipe.Planner.Slots.{expand_slots}
use resy_snipe.Prelude.Results.{
  ok, bind_ok, map_err, map_err-ok, ok_inj, err, err≢ok, guard_ok, Result,
}
use resy_snipe.Prelude.{
  ◌≡◌, List, true, ◌≢◌, Option-cases, ap, inl, sym, inr, ◌∙◌, subst, refl, Bool, false, some, ◌≤◌,
  ltb, if◌then◌else◌, Bool-cases, arith,
}
use resy_snipe.Domain.Intent.{
  ReleaseStrategy, SlotPreference, continuous_release, explicit_release, discovered_release,
}
use resy_snipe.Planner.Strategy.{
  Note, select_strategy, select_in, StrategyInput, calendar_shows_bookable, select_unreleased,
  best_effort_explicit_drop, venue_missing_tz, best_effort_discovered_probe, start_of_day_in,
  end_of_day_in, config_is_zero,
}
use resy_snipe.Planner.Build.{
  build_plan, PlanInput, strategy_failed, strategy_input, slots_failed, assemble,
}
use resy_snipe.Domain.Plan.{
  Formats, Plan, with_hash, compute_hash, canonical_bytes, canonical_payload,
}

-- What a plan that was built is made of.
record IsBuilt (fmt : Formats) (p : PlanInput) (plan : Plan Note) : Type 0 where
  strategy : ReleaseStrategy
  notes : List Note
  slots : List SlotPreference
  selected : select_strategy (strategy_input p) ≡ ok (strategy, notes)
  expanded : expand_slots p.goal.time_prefs p.goal.constraints ≡ ok slots
  made : with_hash fmt (assemble p strategy notes slots) ≡ plan

build_plan-IsBuilt :
    (fmt : Formats) (p : PlanInput) (plan : Plan Note)
    → build_plan fmt p ≡ ok plan
    → IsBuilt fmt p plan
unfolding build_plan
build_plan-IsBuilt fmt p plan h =
    let (chosen, first, more) =
      bind_ok (map_err strategy_failed (select_strategy (strategy_input p))) _ h in
    let (slots, second, last) =
      bind_ok (map_err slots_failed (expand_slots p.goal.time_prefs p.goal.constraints)) _ more in
    record {
      strategy = chosen.0;
      notes = chosen.1;
      slots = slots;
      selected = map_err-ok strategy_failed (select_strategy (strategy_input p)) first;
      expanded = map_err-ok slots_failed (expand_slots p.goal.time_prefs p.goal.constraints) second;
      made = ok_inj last;
    }

-- The same input at another instant.
abbrev pub planned_at : PlanInput → Time → PlanInput
planned_at p now = record p { now = now }

picked_true :
    {E A : Type 0} {b : Bool} (x y : Result E A) {z : Result E A}
    → b ≡ true
    → (if b then x else y) ≡ z
    → x ≡ z
picked_true x y h e = ap (λ b. if b then x else y) (sym h) ∙ e

picked_false :
    {E A : Type 0} {b : Bool} (x y : Result E A) {z : Result E A}
    → b ≡ false
    → (if b then x else y) ≡ z
    → y ≡ z
picked_false x y h e = ap (λ b. if b then x else y) (sym h) ∙ e

select_strategy-continuous :
    (s : StrategyInput) (strategy : ReleaseStrategy) (notes : List Note)
    → calendar_shows_bookable s.calendar_snapshot.days s.goal.date ≡ true
    → select_strategy s ≡ ok (strategy, notes)
    → (until : Time) × (strategy ≡ continuous_release until)
unfolding select_strategy select_in
select_strategy-continuous s strategy notes shown h = elim (Option-cases s.venue.tz) [
  | inl missing ↦
      let refused : select_strategy s ≡ err venue_missing_tz = rw missing refl in
      absurd (err≢ok (sym refused ∙ h))
  | inr (tz, zone) ↦
      let there : select_strategy s ≡ select_in s tz = rw zone refl in
      let (future, rest) =
        guard_ok (ltb (start_of s.goal.date tz) (start_of_day_in s.now tz)) _ _ (sym there ∙ h) in
      let until =
        if is_zero s.continuous_until then end_of_day_in s.now tz else s.continuous_until in
      (until, ap (λ c. c.0) (sym (ok_inj (picked_true _ _ shown rest))))
]

-- A plan for a date that the calendar shows as bookable has the instant of its making as drop moment.
drop_moment-bookable :
    (fmt : Formats) (p : PlanInput) (plan : Plan Note)
    → calendar_shows_bookable p.calendar_snapshot.days p.goal.date ≡ true
    → build_plan fmt p ≡ ok plan
    → (plan.drop_moment ≡ p.now) × (plan.hash ≡ compute_hash fmt plan)
unfolding assemble with_hash compute_hash canonical_bytes canonical_payload
drop_moment-bookable fmt p plan shown h =
    let b = build_plan-IsBuilt fmt p plan h in
    let (until, continuous) =
      select_strategy-continuous (strategy_input p) b.strategy b.notes shown b.selected in
    let same : with_hash fmt (assemble p (continuous_release until) b.notes b.slots) ≡ plan =
      ap (λ s. with_hash fmt (assemble p s b.notes b.slots)) (sym continuous) ∙ b.made in
    subst (λ (q : Plan Note). (q.drop_moment ≡ p.now) × (q.hash ≡ compute_hash fmt q)) same
      (refl, refl)

-- When the calendar shows the wanted date as bookable, two plans that are built from the same goal,
-- venue and calendar at different instants have different hashes: the drop moment, which is hashed, is
-- then the instant of planning. It is assumed that a time stamp can be
-- read back where it stands, and that the digest does not collide on the two canonical texts.
pub build_plan_hash_drifts :
    (fmt : Formats) (p : PlanInput) (now' : Time) (plan plan' : Plan Note)
    → IsReadable fmt
    → (fmt.sha256_hex (canonical_bytes fmt plan) ≡ fmt.sha256_hex (canonical_bytes fmt plan')
        → canonical_bytes fmt plan ≡ canonical_bytes fmt plan')
    → calendar_shows_bookable p.calendar_snapshot.days p.goal.date ≡ true
    → build_plan fmt p ≡ ok plan
    → build_plan fmt (planned_at p now') ≡ ok plan'
    → p.now ≢ now'
    → plan.hash ≢ plan'.hash
unfolding compute_hash
build_plan_hash_drifts fmt p now' plan plan' readable no_collision shown built built' ne same =
    let (drop, hashed) = drop_moment-bookable fmt p plan shown built in
    let (drop', hashed') = drop_moment-bookable fmt (planned_at p now') plan' shown built' in
    let digests = append_cancel_left "sha256:" _ _ (sym hashed ∙ same ∙ hashed') in
    ne (sym drop ∙ drop_moment_injective fmt readable plan plan' (no_collision digests) ∙ drop')

is_continuous : ReleaseStrategy → Bool
is_continuous (continuous_release until) = true
is_continuous _ = false

fire_schedule_for-fixed :
    (st : ReleaseStrategy) (slots : List SlotPreference) (now now' : Time)
    → is_continuous st ≡ false
    → fire_schedule_for (some st) slots now ≡ fire_schedule_for (some st) slots now'
unfolding is_continuous fire_schedule_for
fire_schedule_for-fixed (explicit_release at) slots now now' h = refl
fire_schedule_for-fixed (discovered_release from until) slots now now' h = refl
fire_schedule_for-fixed (continuous_release until) slots now now' h = absurd (false≢true (sym h))

-- Midnight of the day before, in the zone: where an unprimed probe starts from.
abbrev pub probe_midnight : Goal → Location → Time
probe_midnight g tz = on_date_of tz (add_date tz (start_of g.date tz) (negsuc 0)) midnight

select_unreleased-fixed :
    (s : StrategyInput) (tz : Location) (now' : Time)
    → s.now ≤ probe_midnight s.goal tz
    → now' ≤ probe_midnight s.goal tz
    → select_unreleased (record s { now = now' }) tz ≡ select_unreleased s tz
unfolding select_unreleased best_effort_explicit_drop best_effort_discovered_probe
select_unreleased-fixed s tz now' le le' = ground (arith, le, le')

select_unreleased-waits :
    (s : StrategyInput) (tz : Location) → is_continuous (select_unreleased s tz).0 ≡ false
unfolding select_unreleased is_continuous
select_unreleased-waits s tz = elim (Option-cases s.observed_release_avg) [
  | inl unknown ↦ elim (Bool-cases (config_is_zero s.release_config)) [
    | inl bare ↦ rw (unknown, bare) refl
    | inr primed ↦ rw (unknown, primed) refl
  ]
  | inr (at, seen) ↦ rw seen refl
]

select_strategy-unreleased :
    (s : StrategyInput) (tz : Location) (chosen : ReleaseStrategy × List Note)
    → s.venue.tz ≡ some tz
    → calendar_shows_bookable s.calendar_snapshot.days s.goal.date ≡ false
    → select_strategy s ≡ ok chosen
    → select_unreleased s tz ≡ chosen
unfolding select_strategy select_in
select_strategy-unreleased s tz chosen zone unseen h =
    let there : select_strategy s ≡ select_in s tz = rw zone refl in
    let (future, rest) =
      guard_ok (ltb (start_of s.goal.date tz) (start_of_day_in s.now tz)) _ _ (sym there ∙ h) in
    ok_inj (picked_false _ _ unseen rest)

-- The hash reads the strategy and the slots, and the present only through the schedule.
compute_hash-planned_at :
    (fmt : Formats) (p : PlanInput) (now' : Time) (st : ReleaseStrategy) (notes notes' : List Note)
    (slots : List SlotPreference)
    → is_continuous st ≡ false
    → compute_hash fmt (assemble p st notes slots)
      ≡ compute_hash fmt (assemble (planned_at p now') st notes' slots)
unfolding compute_hash canonical_bytes canonical_payload assemble
compute_hash-planned_at fmt p now' st notes notes' slots waits =
    ap
      (λ (f : Time × List Time).
        compute_hash fmt
          (record (assemble p st notes slots) { drop_moment = f.0; fire_schedule = f.1 }))
      (fire_schedule_for-fixed st slots p.now now' waits)

-- As long as the midnight from which an unprimed probe starts is not past, a plan for a date that the
-- calendar does not show as bookable has one hash, whenever it is built: no collision or spelling needs
-- to be excluded for that.
pub build_plan_hash_keeps :
    (fmt : Formats) (p : PlanInput) (tz : Location) (now' : Time) (plan plan' : Plan Note)
    → p.venue.tz ≡ some tz
    → calendar_shows_bookable p.calendar_snapshot.days p.goal.date ≡ false
    → p.now ≤ probe_midnight p.goal tz
    → now' ≤ probe_midnight p.goal tz
    → build_plan fmt p ≡ ok plan
    → build_plan fmt (planned_at p now') ≡ ok plan'
    → plan.hash ≡ plan'.hash
unfolding with_hash
build_plan_hash_keeps fmt p tz now' plan plan' zone unseen le le' built built' =
    let b = build_plan-IsBuilt fmt p plan built in
    let b' = build_plan-IsBuilt fmt (planned_at p now') plan' built' in
    let s = strategy_input p in
    let pick = select_strategy-unreleased s tz (b.strategy, b.notes) zone unseen b.selected in
    let pick' =
      select_strategy-unreleased (strategy_input (planned_at p now')) tz (b'.strategy, b'.notes)
        zone unseen b'.selected in
    let one : b.strategy ≡ b'.strategy =
      ap (λ c. c.0) (sym pick ∙ sym (select_unreleased-fixed s tz now' le le') ∙ pick') in
    let waits : is_continuous b.strategy ≡ false =
      ap (λ (c : ReleaseStrategy × List Note). is_continuous c.0) (sym pick)
      ∙ select_unreleased-waits s tz in
    let slots : b.slots ≡ b'.slots = ok_inj (sym b.expanded ∙ b'.expanded) in
    ap (λ (q : Plan Note). q.hash) (sym b.made)
    ∙ compute_hash-planned_at fmt p now' b.strategy b.notes b'.notes b.slots waits
    ∙ ap (λ st. compute_hash fmt (assemble (planned_at p now') st b'.notes b.slots)) one
    ∙ ap (λ sl. compute_hash fmt (assemble (planned_at p now') b'.strategy b'.notes sl)) slots
    ∙ ap (λ (q : Plan Note). q.hash) b'.made
