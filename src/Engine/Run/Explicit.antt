-- ===== src/Engine/Run/Explicit.antt =====
-- A run of internal/engine/run.go with an explicit release reaches Awaiting, and never before its time.
use resy_snipe.Engine.Run.Sync.{load_stored, with_loaded}
use resy_snipe.Store.Snipes.{row_of, find_row}
use resy_snipe.Engine.Transition.{transition_to_scheduled, load}
use mathlib.Core.Bool.{false≢true}
use resy_snipe.Domain.Intent.{explicit_release, venue_text}
use resy_snipe.Engine.Transition.Atomic.{
  IsStored, Gated, IsSynced, IsCommitted, transition_to_scheduled-Gated, transition_to-Gated,
  IsSynced-IsStored,
}
use resy_snipe.Domain.Status.{awaiting, can_transition, scheduled, submitted}
use resy_snipe.Prelude.Results.{ok, err, err≢ok}
use resy_snipe.Engine.Release.{run_strategy, by_release}
use resy_snipe.Engine.Run.{
  fire_when_due, schedule_and_fire, schedule, wait_and_fire, on_schedule, on_timer,
  scheduled_at_from_intent, run,
}
use resy_snipe.Domain.Snipe.{SnipeState, Event, venue_ref, released_event}
use resy_snipe.Prelude.{
  ℕ, ◌≡◌, false, true, ◌≤◌, some, inl, Bool-cases, leb, refl, sym, arith, ◌∙◌, ◌∷◌, [], inr, ap,
}
use resy_snipe.Domain.Dates.{Time}
use resy_snipe.Engine.World.{Env, Outcome, World, fired, tick, and_then}

-- No statement of the store fails, and a timer fires before the context ends.
pub record IsReliable (env : Env) : Type 0 where
  pub store_works : (n : ℕ) → env.store_fails n ≡ false
  pub timer_fires : (n : ℕ) → env.timer n ≡ fired

-- The call succeeded and left the snipe Awaiting, in memory and in the store, from `at` on.
pub record IsReleased (at : Time) (o : Outcome) : Type 0 where
  pub success : o.0 ≡ ok tt
  pub status_is : o.1.live.status ≡ awaiting
  pub not_early : at ≤ o.1.live.updated_at
  pub synced : IsSynced o.1

-- What is left of the gate when the store works and the move is legal.
Gated-commits :
    (env : Env) (candidate : SnipeState) (ev : Event) (w : World) (o : Outcome)
    → IsReliable env
    → can_transition w.live.status candidate.status ≡ true
    → Gated env candidate ev w o
    → (o.0 ≡ ok tt) × IsCommitted candidate ev w o.1
Gated-commits env candidate ev w o rel legal (inl (illegal, e, same)) =
    absurd (false≢true (sym illegal ∙ legal))
Gated-commits env candidate ev w o rel legal (inr (inl (l, f, e, u))) =
    absurd (false≢true (sym (rel.store_works w.step) ∙ f))
Gated-commits env candidate ev w o rel legal (inr (inr (l, f, e, c))) = (e, c)

and_then-IsReleased :
    (at : Time) (o : Outcome) (f : World → Outcome)
    → o.0 ≡ ok tt
    → IsReleased at (f o.1)
    → IsReleased at (and_then o f)
and_then-IsReleased at (ok d, w) f e h = h
and_then-IsReleased at (err x, w) f e h = absurd (err≢ok e)

module _ (env : Env) (fuel : ℕ) (at : Time) (rel : IsReliable env) where
  -- The release itself, from Scheduled.
  strategy-IsReleased :
      (w : World)
      → IsStored w
      → w.live.status ≡ scheduled
      → w.live.intent.release ≡ some (explicit_release at)
      → at ≤ w.now
      → IsReleased at (run_strategy env fuel w)
  unfolding run_strategy by_release can_transition
  strategy-IsReleased w stored status release due =
      let attrs = venue_ref (venue_text w.live.intent.venue) ∷ [] in
      let (success, c) =
        Gated-commits env _ _ w _ rel (simp status refl)
          (transition_to-Gated env awaiting released_event attrs w stored) in
      simp release (record {
        success = success;
        status_is = ap (λ (s : SnipeState). s.status) c.live_is;
        not_early = rw (ap (λ (s : SnipeState). s.updated_at) c.live_is) due;
        synced = c.synced;
      })

  -- From Scheduled on: at once, or when the timer has fired.
  fire_when_due-IsReleased :
      (w : World)
      → IsStored w
      → w.live.status ≡ scheduled
      → w.live.scheduled_at ≡ at
      → w.live.intent.release ≡ some (explicit_release at)
      → IsReleased at (fire_when_due env fuel w)
  unfolding fire_when_due wait_and_fire on_timer tick
  fire_when_due-IsReleased w stored status planned release =
      elim (Bool-cases (leb w.live.scheduled_at w.now)) [
        | inl due ↦
            simp (status, due)
              (strategy-IsReleased w stored status release (ground (arith, due, planned)))
        | inr early ↦
            simp (status, early, rel.timer_fires w.step)
              (strategy-IsReleased _
                (record { row = stored.row; found = stored.found; created = stored.created }) status
                release (omega (arith, planned)))
      ]

  schedule_and_fire-IsReleased :
      (w : World)
      → IsStored w
      → w.live.status ≡ submitted
      → w.live.intent.release ≡ some (explicit_release at)
      → IsReleased at (schedule_and_fire env fuel w)
  unfolding schedule_and_fire schedule on_schedule scheduled_at_from_intent can_transition
  schedule_and_fire-IsReleased w stored status release =
      let (success, c) =
        Gated-commits env _ _ w _ rel (simp status refl)
          (transition_to_scheduled-Gated env at w stored) in
      simp (status, release)
        (and_then-IsReleased at (transition_to_scheduled env at w) (fire_when_due env fuel) success
          (fire_when_due-IsReleased _ (IsSynced-IsStored _ c.synced)
            (ap (λ (s : SnipeState). s.status) c.live_is)
            (ap (λ (s : SnipeState). s.scheduled_at) c.live_is)
            (ap (λ (s : SnipeState). s.intent.release) c.live_is ∙ release)))

-- When the store works and timers fire, a run of a stored snipe that was submitted with an explicit
-- release succeeds and leaves it Awaiting, in memory and in its row, and the time stamped on that
-- move is not before the release: a run never fires early, and it always fires.
pub run-IsReleased :
    (env : Env) (fuel : ℕ) (w : World) (s : SnipeState) (at : Time)
    → IsReliable env
    → find_row s.id w.db.snipes ≡ some (row_of s)
    → s.status ≡ submitted
    → s.intent.release ≡ some (explicit_release at)
    → IsReleased at (run env fuel s.id w)
unfolding run tick row_of
run-IsReleased env fuel w s at rel stored status release =
    and_then-IsReleased at (load env s.id w) (schedule_and_fire env fuel)
      (ap (λ (o : Outcome). o.0) (load_stored env w s stored (rel.store_works w.step)))
      (rw (load_stored env w s stored (rel.store_works w.step)) (
        schedule_and_fire-IsReleased env fuel at rel (with_loaded (tick env w) s)
          (record { row = row_of s; found = stored; created = refl }) status release))
