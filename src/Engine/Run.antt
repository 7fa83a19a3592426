-- ===== src/Engine/Run.antt =====
-- internal/engine/run.go: one snipe from its schedule to its release.
use resy_snipe.Domain.Dates.{Time}
use resy_snipe.Engine.Transition.{load, transition_to_scheduled}
use resy_snipe.Domain.Status.{status_eq, scheduled, submitted}
use resy_snipe.Prelude.Results.{Result, err, ok}
use resy_snipe.Engine.Release.{run_strategy}
use resy_snipe.Domain.Intent.{
  ReleaseStrategy, explicit_release, discovered_release, continuous_release,
}
use resy_snipe.Prelude.{Option, ℕ, String, if◌then◌else◌, not, ◌+◌, leb, some, ◌-◌, none}
use resy_snipe.Engine.World.{
  Env, World, Outcome, stopped, tick, and_then, EngineError, context_canceled, nil_release,
  skipped_done, skipped_canceled, fired, fired_canceled, TimerFate,
}
pub mod Sync
pub mod Explicit

-- scheduledAtFromIntent: a continuous release is scheduled at once.
unfoldable pub scheduled_at_from_intent : World → Option ReleaseStrategy → Result EngineError Time
scheduled_at_from_intent w none = err nil_release
scheduled_at_from_intent w (some (explicit_release at)) = ok at
scheduled_at_from_intent w (some (discovered_release from to)) = ok from
scheduled_at_from_intent w (some (continuous_release end)) = ok w.now

-- fireRelease.
abbrev pub fire_release : Env → ℕ → World → Outcome
fire_release env fuel w = run_strategy env fuel w

-- The world when a timer of `delay` has fired.
abbrev pub after_delay : Env → ℕ → World → World
after_delay env delay w = record (tick env w) { now = w.now + delay + env.lag w.step }

-- What the end of the wait leads to.
unfoldable pub on_timer : Env → ℕ → ℕ → World → TimerFate → Outcome
on_timer env fuel delay w stopped = (err context_canceled, tick env w)
on_timer env fuel delay w skipped_done = (ok tt, after_delay env delay w)
on_timer env fuel delay w skipped_canceled = (err context_canceled, after_delay env delay w)
on_timer env fuel delay w fired = fire_release env fuel (after_delay env delay w)
on_timer env fuel delay w fired_canceled =
    (err context_canceled, (fire_release env fuel (after_delay env delay w)).1)

-- waitAndFire.
unfoldable pub wait_and_fire : Env → ℕ → ℕ → World → Outcome
wait_and_fire env fuel delay w = on_timer env fuel delay w (env.timer w.step)

unfoldable pub on_schedule : Env → World → Result EngineError Time → Outcome
on_schedule env w (err e) = (err e, w)
on_schedule env w (ok at) = transition_to_scheduled env at w

-- The first step of a run: a submitted snipe is scheduled.
unfoldable pub schedule : Env → World → Outcome
schedule env w =
    if status_eq w.live.status submitted
    then on_schedule env w (scheduled_at_from_intent w w.live.intent.release)
    else (ok tt, w)

-- What follows: a snipe that is scheduled is fired, at once if its time has come.
unfoldable pub fire_when_due : Env → ℕ → World → Outcome
fire_when_due env fuel w =
    if not (status_eq w.live.status scheduled)
    then (ok tt, w)
    else if leb w.live.scheduled_at w.now
    then fire_release env fuel w
    else wait_and_fire env fuel (w.live.scheduled_at - w.now) w

unfoldable pub schedule_and_fire : Env → ℕ → World → Outcome
schedule_and_fire env fuel w = and_then (schedule env w) (fire_when_due env fuel)

-- Engine.Run.
unfoldable pub run : Env → ℕ → String → World → Outcome
run env fuel id w = and_then (load env id w) (schedule_and_fire env fuel)
