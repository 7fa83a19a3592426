-- ===== src/Engine/Release/Closing.antt =====
-- Where a release of internal/engine/release.go leaves the snipe when it returns no error.
use resy_snipe.Engine.Release.Steps.{
  EndsIn, IsClosed, failed-EndsIn, moved-EndsIn, wait-EndsIn, on_calendar-EndsIn, on_slots-EndsIn,
  called-IsStored,
}
use resy_snipe.Domain.Dates.{Time, is_zero}
use resy_snipe.Engine.Release.{
  continuous_loop, discover_loop, continuous_round, discover_round, continuous_expired,
  probe_expired, advance_to_discovering, by_release, run_continuous_release, run_discovered_release,
  run_strategy, wait_to_probe,
}
use resy_snipe.Engine.Transition.Atomic.{
  IsStored, IsSynced, transition_to-IsCommitted, IsSynced-IsStored,
}
use resy_snipe.Domain.Snipe.{SnipeState}
use resy_snipe.Prelude.Results.{err, ok}
use resy_snipe.Domain.Status.{awaiting, failed, expired, status_eq, discovering}
use resy_snipe.Domain.Intent.{
  ReleaseStrategy, explicit_release, discovered_release, continuous_release,
}
use resy_snipe.Prelude.{
  refl, Option, ◌≡◌, ℕ, Bool-cases, inl, inr, some, arith, suc, ltb, ap, none, zero, ◌||◌,
}
use resy_snipe.Engine.World.{
  Env, World, Outcome, and_then, context_canceled, called, out_of_fuel, nil_release,
  missing_provider, until_required, bad_probe_window,
}

module _ (env : Env) where
  discover_loop-EndsIn :
      (fuel : ℕ) (from to : Time) (w : World)
      → IsStored w
      → EndsIn (IsClosed (some (discovered_release from to))) (discover_loop env fuel to w)
  unfolding discover_loop discover_round probe_expired
  discover_loop-EndsIn zero from to w stored =
      failed-EndsIn env (IsClosed (some (discovered_release from to))) out_of_fuel w
  discover_loop-EndsIn (suc fuel) from to w stored = elim (Bool-cases (env.canceled w.step)) [
    | inl c ↦
        rw c (failed-EndsIn env (IsClosed (some (discovered_release from to))) context_canceled w)
    | inr c ↦ elim (Bool-cases (ltb w.now to)) [
      | inr late ↦
          rw (c, late)
            (moved-EndsIn env (IsClosed (some (discovered_release from to))) failed _ _ w stored
              (λ w' e. inr (
                ap (λ (s : SnipeState). s.status) e,
                rw (ap (λ (s : SnipeState). s.updated_at) e) (ground (arith, late)),
              )))
      | inl early ↦
          rw (c, early)
            (on_calendar-EndsIn env (IsClosed (some (discovered_release from to)))
              (discover_loop env fuel to) _ (called env w) (λ w' e. inl e)
              (λ v. discover_loop-EndsIn fuel from to v)
              (called-IsStored env (IsClosed (some (discovered_release from to))) w stored))
    ]
  ]

  continuous_loop-EndsIn :
      (fuel : ℕ) (end : Time) (w : World)
      → IsStored w
      → EndsIn (IsClosed (some (continuous_release end))) (continuous_loop env fuel end w)
  unfolding continuous_loop continuous_round continuous_expired
  continuous_loop-EndsIn zero end w stored =
      failed-EndsIn env (IsClosed (some (continuous_release end))) out_of_fuel w
  continuous_loop-EndsIn (suc fuel) end w stored = elim (Bool-cases (env.canceled w.step)) [
    | inl c ↦ rw c (failed-EndsIn env (IsClosed (some (continuous_release end))) context_canceled w)
    | inr c ↦ elim (Bool-cases (ltb w.now end)) [
      | inr late ↦
          rw (c, late)
            (moved-EndsIn env (IsClosed (some (continuous_release end))) expired _ _ w stored
              (λ w' e. inr (
                ap (λ (s : SnipeState). s.status) e,
                rw (ap (λ (s : SnipeState). s.updated_at) e) (ground (arith, late)),
              )))
      | inl early ↦
          rw (c, early)
            (on_slots-EndsIn env (IsClosed (some (continuous_release end)))
              (continuous_loop env fuel end) _ (called env w) (λ w' e. inl e)
              (λ v. continuous_loop-EndsIn fuel end v)
              (called-IsStored env (IsClosed (some (continuous_release end))) w stored))
    ]
  ]

  and_then-EndsIn :
      (P : World → Type 0) (o : Outcome) (f : World → Outcome)
      → (o.0 ≡ ok tt → EndsIn P (f o.1))
      → EndsIn P (and_then o f)
  and_then-EndsIn P (ok d, w) f h = h refl
  and_then-EndsIn P (err e, w) f h = failed-EndsIn env P e w

  -- A snipe that went on to Discovering is still stored.
  advance-IsStored :
      (from to : Time) (w : World)
      → IsStored w
      → (advance_to_discovering env from to w).0 ≡ ok tt
      → IsStored (advance_to_discovering env from to w).1
  unfolding advance_to_discovering
  advance-IsStored from to w stored = elim (Bool-cases (status_eq w.live.status discovering)) [
    | inl there ↦ rw there (λ h. stored)
    | inr before ↦
        rw before (λ h.
          IsSynced-IsStored _ (transition_to-IsCommitted env discovering _ _ w stored h).synced)
  ]

  discovered-EndsIn :
      (fuel : ℕ) (from to : Time) (w : World)
      → IsStored w
      → EndsIn
          (IsClosed (some (discovered_release from to)))
          (run_discovered_release env fuel from to w)
  unfolding run_discovered_release wait_to_probe
  discovered-EndsIn fuel from to w stored = elim (Bool-cases (is_zero from || is_zero to)) [
    | inl unset ↦
        rw unset
          (failed-EndsIn env (IsClosed (some (discovered_release from to))) bad_probe_window w)
    | inr set ↦ elim (Bool-cases (ltb from to)) [
      | inr inverted ↦
          rw (set, inverted)
            (failed-EndsIn env (IsClosed (some (discovered_release from to))) bad_probe_window w)
      | inl window ↦
          rw (set, window)
            (and_then-EndsIn (IsClosed (some (discovered_release from to)))
              (advance_to_discovering env from to w) (wait_to_probe env fuel from to)
              (λ h.
                wait-EndsIn env (IsClosed (some (discovered_release from to))) _ _
                  (discover_loop env fuel to) (discover_loop-EndsIn fuel from to)
                  (advance-IsStored from to w stored h)))
    ]
  ]

  continuous-EndsIn :
      (fuel : ℕ) (end : Time) (w : World)
      → IsStored w
      → EndsIn (IsClosed (some (continuous_release end))) (run_continuous_release env fuel end w)
  unfolding run_continuous_release
  continuous-EndsIn fuel end w stored = elim (Bool-cases (is_zero end)) [
    | inl unset ↦
        rw unset (failed-EndsIn env (IsClosed (some (continuous_release end))) until_required w)
    | inr set ↦ rw set (continuous_loop-EndsIn fuel end w stored)
  ]

  by_release-EndsIn :
      (fuel : ℕ) (release : Option ReleaseStrategy) (w : World)
      → IsStored w
      → EndsIn (IsClosed release) (by_release env fuel w release)
  unfolding by_release
  by_release-EndsIn fuel none w stored = failed-EndsIn env (IsClosed none) nil_release w
  by_release-EndsIn fuel (some (explicit_release at)) w stored =
      moved-EndsIn env (IsClosed (some (explicit_release at))) awaiting _ _ w stored
        (λ w' e. ap (λ (s : SnipeState). s.status) e)
  by_release-EndsIn fuel (some (discovered_release from to)) w stored =
      elim (Bool-cases env.has_provider) [
        | inl there ↦ simp there (discovered-EndsIn fuel from to w stored)
        | inr absent ↦
            simp absent
              (failed-EndsIn env (IsClosed (some (discovered_release from to))) missing_provider w)
      ]
  by_release-EndsIn fuel (some (continuous_release end)) w stored =
      elim (Bool-cases env.has_provider) [
        | inl there ↦ simp there (continuous-EndsIn fuel end w stored)
        | inr absent ↦
            simp absent
              (failed-EndsIn env (IsClosed (some (continuous_release end))) missing_provider w)
      ]

-- When the release of a stored snipe returns no error, the snipe is, in memory and in its row, in a
-- state that its strategy allows: Awaiting for an explicit release; Awaiting, or Failed by a move
-- stamped not before the end of the window, for a discovered one; Awaiting, or Expired by a move
-- stamped not before its end, for a continuous one. A snipe without a strategy always gets an error.
pub run_strategy-IsClosed :
    (env : Env) (fuel : ℕ) (w : World)
    → IsStored w
    → (run_strategy env fuel w).0 ≡ ok tt
    → IsClosed w.live.intent.release (run_strategy env fuel w).1
      × IsSynced (run_strategy env fuel w).1
unfolding run_strategy
run_strategy-IsClosed env fuel w stored h =
    by_release-EndsIn env fuel w.live.intent.release w stored h
