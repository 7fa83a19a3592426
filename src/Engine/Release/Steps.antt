-- ===== src/Engine/Release/Steps.antt =====
-- How one step of a release of internal/engine/release.go ends, when it returns no error.
use resy_snipe.Providers.{ProviderError, Calendar, Slot, inventory_empty}
use resy_snipe.Store.Snipes.{upsert_observed}
use resy_snipe.Engine.Release.Observe.{record_observed, calendar_contains_available}
use resy_snipe.Engine.Release.{on_calendar, on_slots, continuous_hit, probe_hit}
use resy_snipe.Engine.Transition.{transition_to}
use resy_snipe.Engine.Transition.Atomic.{IsStored, IsSynced, transition_to-IsCommitted}
use resy_snipe.Domain.Snipe.{EventType, Attr, SnipeState}
use resy_snipe.Prelude.Results.{err, ok, err≢ok, Result}
use resy_snipe.Domain.Status.{Status, awaiting, failed, expired}
use resy_snipe.Domain.Intent.{
  ReleaseStrategy, explicit_release, discovered_release, continuous_release,
}
use resy_snipe.Prelude.{
  refl, Option, ◌≡◌, List, ℕ, Bool-cases, ◌==◌, inl, inr, some, ◌+◌, arith, ◌⊎◌, ◌∷◌, ◌≤◌, ap, none,
  [],
}
use resy_snipe.Engine.World.{
  Env, World, EngineError, Outcome, wait_with_ctx, tick, and_then, context_canceled, called,
  poll_interval, provider_failure,
}

-- What became of a release, by its strategy: Awaiting; or the window is over.
abbrev pub IsClosed : Option ReleaseStrategy → World → Type 0
IsClosed none w = ⊥
IsClosed (some (explicit_release at)) w = w.live.status ≡ awaiting
IsClosed (some (discovered_release from to)) w =
    (w.live.status ≡ awaiting) ⊎ ((w.live.status ≡ failed) × (to ≤ w.live.updated_at))
IsClosed (some (continuous_release end)) w =
    (w.live.status ≡ awaiting) ⊎ ((w.live.status ≡ expired) × (end ≤ w.live.updated_at))

-- The call, where it succeeded, left a stored snipe in that state.
abbrev pub EndsIn : (World → Type 0) → Outcome → Type 0
EndsIn P o = o.0 ≡ ok tt → P o.1 × IsSynced o.1

-- Being stored is kept by what changes neither the snipe nor the rows.
pub same-IsStored :
    (w w' : World) → w'.live ≡ w.live → w'.db.snipes ≡ w.db.snipes → IsStored w → IsStored w'
same-IsStored w w' l d s = record {
  row = s.row;
  found = rw (l, d) s.found;
  created = rw l s.created;
}

module _ (env : Env) (P : World → Type 0) where
  pub failed-EndsIn : (e : EngineError) (w : World) → EndsIn P (err e, w)
  failed-EndsIn e w h = absurd (err≢ok h)

  pub moved-EndsIn :
      (to : Status) (kind : EventType) (attrs : List Attr) (w : World)
      → IsStored w
      → ((w' : World) → w'.live ≡ record w.live { status = to; updated_at = w.now } → P w')
      → EndsIn P (transition_to env to kind attrs w)
  moved-EndsIn to kind attrs w stored f h =
      let c = transition_to-IsCommitted env to kind attrs w stored h in (f _ c.live_is, c.synced)

  pub wait-EndsIn :
      (d : ℕ) (w : World) (again : World → Outcome)
      → ((v : World) → IsStored v → EndsIn P (again v))
      → IsStored w
      → EndsIn P (and_then (wait_with_ctx env d w) again)
  unfolding wait_with_ctx tick
  wait-EndsIn d w again f stored = elim (Bool-cases (d == 0)) [
    | inl z ↦ simp z (f w stored)
    | inr z ↦ elim (Bool-cases (env.canceled w.step)) [
      | inl c ↦ simp (z, c) (failed-EndsIn context_canceled _)
      | inr c ↦
          simp (z, c)
            (f (record (tick env w) { now = w.now + d + env.lag w.step })
              (same-IsStored w _ refl refl stored))
    ]
  ]

  pub called-IsStored : (w : World) → IsStored w → IsStored (called env w)
  unfolding called tick
  called-IsStored w stored = same-IsStored w _ refl refl stored

  pub observed-IsStored : (w : World) → IsStored w → IsStored (record_observed env w)
  unfolding record_observed upsert_observed tick
  observed-IsStored w stored = same-IsStored w _ (ground arith) (ground arith) stored

  pub on_calendar-EndsIn :
      (again : World → Outcome) (answer : Result ProviderError Calendar) (w : World)
      → ((w' : World) → w'.live.status ≡ awaiting → P w')
      → ((v : World) → IsStored v → EndsIn P (again v))
      → IsStored w
      → EndsIn P (on_calendar env again answer w)
  unfolding on_calendar probe_hit
  on_calendar-EndsIn again (err e) w hit f stored = failed-EndsIn (provider_failure e) w
  on_calendar-EndsIn again (ok cal) w hit f stored =
      elim (Bool-cases (calendar_contains_available cal.days w.live.intent.date)) [
        | inl there ↦ rw there (
            moved-EndsIn awaiting _ _ _ (observed-IsStored w stored)
              (λ w' e. hit w' (ap (λ (s : SnipeState). s.status) e)))
        | inr absent ↦ rw absent (wait-EndsIn (poll_interval env) w again f stored)
      ]

  pub on_slots-EndsIn :
      (again : World → Outcome) (answer : Result ProviderError (List Slot)) (w : World)
      → ((w' : World) → w'.live.status ≡ awaiting → P w')
      → ((v : World) → IsStored v → EndsIn P (again v))
      → IsStored w
      → EndsIn P (on_slots env again answer w)
  unfolding on_slots continuous_hit
  on_slots-EndsIn again (err inventory_empty) w hit f stored =
      wait-EndsIn (poll_interval env) w again f stored
  on_slots-EndsIn again (err e) w hit f stored = failed-EndsIn (provider_failure e) w
  on_slots-EndsIn again (ok []) w hit f stored = wait-EndsIn (poll_interval env) w again f stored
  on_slots-EndsIn again (ok (slot ∷ slots)) w hit f stored =
      moved-EndsIn awaiting _ _ _ stored (λ w' e. hit w' (ap (λ (s : SnipeState). s.status) e))
