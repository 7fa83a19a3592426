-- ===== src/Engine/Release/Progress.antt =====
-- The release loops of internal/engine/release.go make progress by legal moves only.
use resy_snipe.Domain.Intent.{
  ReleaseStrategy, explicit_release, discovered_release, continuous_release,
}
use resy_snipe.Providers.{ProviderError, Calendar, Slot, inventory_empty}
use resy_snipe.Prelude.Results.{Result, err, ok}
use resy_snipe.Store.Snipes.{upsert_observed}
use resy_snipe.Domain.Status.{status_eq, discovering}
use resy_snipe.Prelude.{
  Bool-cases, arith, inl, inr, if◌then◌else◌, ℕ, List, suc, not, ltb, ◌∷◌, [], zero, Option, ◌||◌,
  some, none, ◌-◌,
}
use resy_snipe.Engine.Progress.{
  Progress, Progress-same, transition_to-Progress, and_then-Progress, called-Progress,
  wait_with_ctx-Progress,
}
use resy_snipe.Domain.Dates.{Time, is_zero}
use resy_snipe.Engine.World.{
  Env, World, Outcome, and_then, tick, wait_with_ctx, context_canceled, poll_interval, called,
}
use resy_snipe.Engine.Release.Observe.{record_observed, calendar_contains_available}
use resy_snipe.Engine.Release.{
  advance_to_discovering, probe_hit, continuous_loop, discover_loop, on_calendar, on_slots,
  continuous_round, discover_round, probe_expired, ask_calendar, by_release, continuous_expired,
  run_continuous_release, run_discovered_release, run_strategy, wait_to_probe,
}

record_observed-Progress :
    (env : Env) (w0 w : World) → Progress w0 w → Progress w0 (record_observed env w)
unfolding record_observed upsert_observed tick
record_observed-Progress env w0 w p = Progress-same w0 w _ (ground arith) (ground arith) p

probe_hit-Progress : (env : Env) (w0 w : World) → Progress w0 w → Progress w0 (probe_hit env w).1
unfolding probe_hit
probe_hit-Progress env w0 w p =
    transition_to-Progress env _ _ _ w0 _ (record_observed-Progress env w0 w p)

advance-Progress :
    (env : Env) (from to : Time) (w0 w : World)
    → Progress w0 w
    → Progress w0 (advance_to_discovering env from to w).1
unfolding advance_to_discovering
advance-Progress env from to w0 w p = elim (Bool-cases (status_eq w.live.status discovering)) [
  | inl there ↦ rw there p
  | inr other ↦ rw other (transition_to-Progress env _ _ _ w0 w p)
]

wait_again-Progress :
    (env : Env) (again : World → Outcome) (w0 w : World)
    → ((v : World) → Progress w0 v → Progress w0 (again v).1)
    → Progress w0 w
    → Progress w0 (and_then (wait_with_ctx env (poll_interval env) w) again).1
wait_again-Progress env again w0 w keep p =
    and_then-Progress w0 _ again keep (wait_with_ctx-Progress env (poll_interval env) w0 w p)

on_calendar-Progress :
    (env : Env) (again : World → Outcome) (w0 : World)
    → ((v : World) → Progress w0 v → Progress w0 (again v).1)
    → (answer : Result ProviderError Calendar) (w : World) → Progress w0 w
    → Progress w0 (on_calendar env again answer w).1
unfolding on_calendar
on_calendar-Progress env again w0 keep (err e) w p = p
on_calendar-Progress env again w0 keep (ok cal) w p =
    elim (Bool-cases (calendar_contains_available cal.days w.live.intent.date)) [
      | inl hit ↦ rw hit (probe_hit-Progress env w0 w p)
      | inr miss ↦ rw miss (wait_again-Progress env again w0 w keep p)
    ]

on_slots-Progress :
    (env : Env) (again : World → Outcome) (w0 : World)
    → ((v : World) → Progress w0 v → Progress w0 (again v).1)
    → (answer : Result ProviderError (List Slot)) (w : World) → Progress w0 w
    → Progress w0 (on_slots env again answer w).1
unfolding on_slots
on_slots-Progress env again w0 keep (err inventory_empty) w p =
    wait_again-Progress env again w0 w keep p
on_slots-Progress env again w0 keep (err e) w p = p
on_slots-Progress env again w0 keep (ok []) w p = wait_again-Progress env again w0 w keep p
on_slots-Progress env again w0 keep (ok (slot ∷ slots)) w p =
    transition_to-Progress env _ _ _ w0 w p

-- The guards that both loops begin a round with.
guarded-Progress :
    (env : Env) (end : Time) (expire poll : World → Outcome) (w0 w : World)
    → Progress w0 (expire w).1
    → Progress w0 (poll w).1
    → Progress w0 w
    → Progress w0
        (if env.canceled w.step
          then (err context_canceled, w)
          else if not (ltb w.now end)
          then expire w
          else poll w).1
guarded-Progress env end expire poll w0 w pe pp p = elim (Bool-cases (env.canceled w.step)) [
  | inl c ↦ rw c p
  | inr c ↦ elim (Bool-cases (ltb w.now end)) [
    | inl early ↦ rw (c, early) pp
    | inr late ↦ rw (c, late) pe
  ]
]

discover_loop-Progress :
    (env : Env) (fuel : ℕ) (to : Time) (w0 w : World)
    → Progress w0 w
    → Progress w0 (discover_loop env fuel to w).1
unfolding discover_loop discover_round probe_expired
discover_loop-Progress env zero to w0 w p = p
discover_loop-Progress env (suc fuel) to w0 w p =
    guarded-Progress env to (probe_expired env to)
      (λ v. on_calendar env (discover_loop env fuel to) (ask_calendar env v) (called env v)) w0 w
      (transition_to-Progress env _ _ _ w0 w p)
      (on_calendar-Progress env _ w0 (discover_loop-Progress env fuel to w0) _ _
        (called-Progress env w0 w p))
      p

continuous_loop-Progress :
    (env : Env) (fuel : ℕ) (end : Time) (w0 w : World)
    → Progress w0 w
    → Progress w0 (continuous_loop env fuel end w).1
unfolding continuous_loop continuous_round continuous_expired
continuous_loop-Progress env zero end w0 w p = p
continuous_loop-Progress env (suc fuel) end w0 w p =
    guarded-Progress env end (continuous_expired env end)
      (λ v.
        on_slots env (continuous_loop env fuel end) (env.find v.step v.live.intent [])
          (called env v))
      w0 w (transition_to-Progress env _ _ _ w0 w p)
      (on_slots-Progress env _ w0 (continuous_loop-Progress env fuel end w0) _ _
        (called-Progress env w0 w p))
      p

wait_to_probe-Progress :
    (env : Env) (fuel : ℕ) (from to : Time) (w0 w : World)
    → Progress w0 w
    → Progress w0 (wait_to_probe env fuel from to w).1
unfolding wait_to_probe
wait_to_probe-Progress env fuel from to w0 w p =
    and_then-Progress w0 (wait_with_ctx env (from - w.now) w) (discover_loop env fuel to)
      (discover_loop-Progress env fuel to w0) (wait_with_ctx-Progress env (from - w.now) w0 w p)

run_discovered-Progress :
    (env : Env) (fuel : ℕ) (from to : Time) (w0 w : World)
    → Progress w0 w
    → Progress w0 (run_discovered_release env fuel from to w).1
unfolding run_discovered_release
run_discovered-Progress env fuel from to w0 w p = elim (Bool-cases (is_zero from || is_zero to)) [
  | inl bad ↦ rw bad p
  | inr given ↦ elim (Bool-cases (ltb from to)) [
    | inr bad ↦ rw (given, bad) p
    | inl fine ↦
        rw (given, fine)
          (and_then-Progress w0 (advance_to_discovering env from to w)
            (wait_to_probe env fuel from to) (wait_to_probe-Progress env fuel from to w0)
            (advance-Progress env from to w0 w p))
  ]
]

run_continuous-Progress :
    (env : Env) (fuel : ℕ) (end : Time) (w0 w : World)
    → Progress w0 w
    → Progress w0 (run_continuous_release env fuel end w).1
unfolding run_continuous_release
run_continuous-Progress env fuel end w0 w p = elim (Bool-cases (is_zero end)) [
  | inl bad ↦ rw bad p
  | inr given ↦ rw given (continuous_loop-Progress env fuel end w0 w p)
]

by_release-Progress :
    (env : Env) (fuel : ℕ) (w0 w : World) (r : Option ReleaseStrategy)
    → Progress w0 w
    → Progress w0 (by_release env fuel w r).1
unfolding by_release
by_release-Progress env fuel w0 w none p = p
by_release-Progress env fuel w0 w (some (explicit_release at)) p =
    transition_to-Progress env _ _ _ w0 w p
by_release-Progress env fuel w0 w (some (discovered_release from to)) p =
    elim (Bool-cases env.has_provider) [
      | inl h ↦ simp h (run_discovered-Progress env fuel from to w0 w p)
      | inr h ↦ simp h p
    ]
by_release-Progress env fuel w0 w (some (continuous_release end)) p =
    elim (Bool-cases env.has_provider) [
      | inl h ↦ simp h (run_continuous-Progress env fuel end w0 w p)
      | inr h ↦ simp h p
    ]

pub run_strategy-Progress :
    (env : Env) (fuel : ℕ) (w0 w : World) → Progress w0 w → Progress w0 (run_strategy env fuel w).1
unfolding run_strategy
run_strategy-Progress env fuel w0 w p = by_release-Progress env fuel w0 w w.live.intent.release p
