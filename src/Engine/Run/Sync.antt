-- ===== src/Engine/Run/Sync.antt =====
-- What a whole run of internal/engine/run.go leaves behind.
use resy_snipe.Store.Snipes.RoundTrip.{read_row-row_of}
use resy_snipe.Engine.Transition.Atomic.{IsSynced, IsUnchanged}
use resy_snipe.Engine.Release.Progress.{run_strategy-Progress}
use resy_snipe.Domain.Status.{status_eq, scheduled, submitted}
use resy_snipe.Domain.Dates.{Time}
use resy_snipe.Prelude.{ℕ, Bool-cases, ◌≡◌, some, inl, inr, [], leb, ◌⊎◌, String, false, refl, true}
use resy_snipe.Engine.Progress.{
  Progress, Progress-same, transition_to_scheduled-Progress, Progress-refl, and_then-Progress,
}
use resy_snipe.Domain.Snipe.{SnipeState}
use resy_snipe.Prelude.Results.{Result, err, ok}
use resy_snipe.Engine.World.{
  Env, World, tick, EngineError, TimerFate, stopped, store_failure, skipped_done, skipped_canceled,
  fired, fired_canceled,
}
use resy_snipe.Engine.Transition.{load}
use resy_snipe.Store.Snipes.{row_of, get_snipe, find_row}
use resy_snipe.Engine.Run.{
  fire_when_due, on_schedule, on_timer, run, schedule, wait_and_fire, schedule_and_fire,
}

wait_and_fire-Progress :
    (env : Env) (fuel delay : ℕ) (w0 w : World) (fate : TimerFate)
    → Progress w0 w
    → Progress w0 (on_timer env fuel delay w fate).1
unfolding on_timer tick
wait_and_fire-Progress env fuel delay w0 w stopped p = Progress-same w0 w _ refl refl p
wait_and_fire-Progress env fuel delay w0 w skipped_done p = Progress-same w0 w _ refl refl p
wait_and_fire-Progress env fuel delay w0 w skipped_canceled p = Progress-same w0 w _ refl refl p
wait_and_fire-Progress env fuel delay w0 w fired p =
    run_strategy-Progress env fuel w0 _ (Progress-same w0 w _ refl refl p)
wait_and_fire-Progress env fuel delay w0 w fired_canceled p =
    run_strategy-Progress env fuel w0 _ (Progress-same w0 w _ refl refl p)

on_schedule-Progress :
    (env : Env) (w0 w : World) (at : Result EngineError Time)
    → Progress w0 w
    → Progress w0 (on_schedule env w at).1
unfolding on_schedule
on_schedule-Progress env w0 w (err e) p = p
on_schedule-Progress env w0 w (ok at) p = transition_to_scheduled-Progress env at w0 w p

schedule-Progress : (env : Env) (w0 w : World) → Progress w0 w → Progress w0 (schedule env w).1
unfolding schedule
schedule-Progress env w0 w p = elim (Bool-cases (status_eq w.live.status submitted)) [
  | inl fresh ↦ rw fresh (on_schedule-Progress env w0 w _ p)
  | inr later ↦ rw later p
]

fire_when_due-Progress :
    (env : Env) (fuel : ℕ) (w0 w : World) → Progress w0 w → Progress w0 (fire_when_due env fuel w).1
unfolding fire_when_due wait_and_fire
fire_when_due-Progress env fuel w0 w p = elim (Bool-cases (status_eq w.live.status scheduled)) [
  | inr other ↦ rw other p
  | inl due ↦ elim (Bool-cases (leb w.live.scheduled_at w.now)) [
    | inl now ↦ rw (due, now) (run_strategy-Progress env fuel w0 w p)
    | inr wait ↦ rw (due, wait) (wait_and_fire-Progress env fuel _ w0 w _ p)
  ]
]

loaded-IsSynced :
    (w : World) (s : SnipeState)
    → find_row s.id w.db.snipes ≡ some (row_of s)
    → IsSynced (record w { live = record s { events = [] } })
unfolding row_of
loaded-IsSynced w s h = h

schedule_and_fire-Progress :
    (env : Env) (fuel : ℕ) (w0 w : World)
    → Progress w0 w
    → Progress w0 (schedule_and_fire env fuel w).1
unfolding schedule_and_fire
schedule_and_fire-Progress env fuel w0 w p =
    and_then-Progress w0 (schedule env w) (fire_when_due env fuel)
      (fire_when_due-Progress env fuel w0) (schedule-Progress env w0 w p)

tick-IsUnchanged : (env : Env) (w : World) → IsUnchanged w (tick env w)
unfolding tick
tick-IsUnchanged env w = record { same_live = refl; same_db = refl; same_sent = refl }

-- The world with a snipe that was read from its row.
abbrev pub with_loaded : World → SnipeState → World
with_loaded w s = record w { live = record s { events = [] } }

load_failed :
    (env : Env) (w : World) (id : String)
    → env.store_fails w.step ≡ true
    → load env id w ≡ (err store_failure, tick env w)
unfolding load
load_failed env w id f = rw f

pub load_stored :
    (env : Env) (w : World) (s : SnipeState)
    → find_row s.id w.db.snipes ≡ some (row_of s)
    → env.store_fails w.step ≡ false
    → load env s.id w ≡ (ok tt, with_loaded (tick env w) s)
unfolding load get_snipe
load_stored env w s h f = rw (f, h, read_row-row_of s)

loaded-Progress :
    (env : Env) (w : World) (s : SnipeState)
    → find_row s.id w.db.snipes ≡ some (row_of s)
    → Progress (with_loaded w s) (with_loaded (tick env w) s)
unfolding tick
loaded-Progress env w s h =
    Progress-same (with_loaded w s) (with_loaded w s) (with_loaded (tick env w) s) refl refl
      (Progress-refl (with_loaded w s) (loaded-IsSynced w s h))

-- A run of a stored snipe, with any provider, store, clock and context and any fuel, either fails to
-- read it and changes nothing, or takes it from its stored status along legal moves of the table;
-- memory and store agree at its end, however it ends, and no other snipe's row was touched.
pub run-Progress :
    (env : Env) (fuel : ℕ) (w : World) (s : SnipeState)
    → find_row s.id w.db.snipes ≡ some (row_of s)
    → ((run env fuel s.id w).0 ≡ err store_failure) × IsUnchanged w (run env fuel s.id w).1
      ⊎ Progress (with_loaded w s) (run env fuel s.id w).1
unfolding run
run-Progress env fuel w s h = elim (Bool-cases (env.store_fails w.step)) [
  | inl f ↦
      inl (rw (load_failed env w s.id f), rw (load_failed env w s.id f) (tick-IsUnchanged env w))
  | inr f ↦ inr (
      rw (load_stored env w s h f)
        (schedule_and_fire-Progress env fuel (with_loaded w s) _ (loaded-Progress env w s h)))
]
