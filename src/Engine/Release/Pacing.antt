-- ===== src/Engine/Release/Pacing.antt =====
-- The anti-bot floor of internal/engine/release.go: how far apart the provider's calls lie.
use resy_snipe.Providers.{ProviderError, Calendar, Slot, inventory_empty}
use resy_snipe.Prelude.Results.{Result, err, ok}
use resy_snipe.Engine.Release.{
  continuous_loop, continuous_round, discover_loop, discover_round, on_calendar, on_slots,
  continuous_expired, continuous_hit, probe_expired, probe_hit,
}
use resy_snipe.Engine.Release.Ends.{poll_interval-ge}
use resy_snipe.Domain.Status.{Status}
use resy_snipe.Domain.Dates.{Time, millisecond}
use resy_snipe.Domain.Snipe.{transition, SnipeState, Event, EventType, Attr}
use resy_snipe.Engine.World.{
  Env, Outcome, World, tick, wait_with_ctx, called, poll_interval, and_then,
}
use resy_snipe.Prelude.{
  ℕ, List, ◌≡◌, arith, ◌∷◌, Bool-cases, [], ◌+◌, ◌==◌, ◌≤◌, inl, inr, suc, ◌≢◌, zero, ◌*◌, ltb,
}
use resy_snipe.Engine.Release.Observe.{record_observed, calendar_contains_available}
use resy_snipe.Engine.Transition.{persist, transition_to, event_of}

-- The time lies a gap after the newest call.
abbrev pub Follows : ℕ → List Time → Time → Type 0
Follows gap [] t = Unit
Follows gap (c ∷ cs) t = c + gap ≤ t

-- Each call lies a gap after the one before it; the newest stands first.
abbrev pub IsSpaced : ℕ → List Time → Type 0
IsSpaced gap [] = Unit
IsSpaced gap (c ∷ cs) = Follows gap cs c × IsSpaced gap cs

-- Calls are spaced and the next one may be made now.
pub record IsPaced (env : Env) (w : World) : Type 0 where
  pub ready : Follows (poll_interval env) w.calls w.now
  pub spaced : IsSpaced (poll_interval env) w.calls

abbrev EndsSpaced : Env → Outcome → Type 0
EndsSpaced env o = IsSpaced (poll_interval env) o.1.calls

persist-calls :
    (env : Env) (candidate : SnipeState) (ev : Event) (w : World)
    → (persist env candidate ev w).1.calls ≡ w.calls
unfolding persist tick
persist-calls env candidate ev w = ground arith

transition_to-calls :
    (env : Env) (to : Status) (kind : EventType) (attrs : List Attr) (w : World)
    → (transition_to env to kind attrs w).1.calls ≡ w.calls
unfolding transition_to transition
transition_to-calls env to kind attrs w = ground (
  arith,
  persist-calls env (record w.live { status = to; updated_at = w.now }) (event_of w kind attrs) w,
)

record_observed-calls : (env : Env) (w : World) → (record_observed env w).calls ≡ w.calls
unfolding record_observed tick
record_observed-calls env w = ground arith

never_zero : (env : Env) → poll_interval env ≢ 0
never_zero env = omega (arith, poll_interval-ge env)

module _ (env : Env) where
  -- The call is made, and the rest of the loop begins a poll interval later.
  wait-EndsSpaced :
      (w : World) (again : World → Outcome)
      → ((v : World) → IsPaced env v → EndsSpaced env (again v))
      → IsPaced env w
      → EndsSpaced env (and_then (wait_with_ctx env (poll_interval env) (called env w)) again)
  unfolding wait_with_ctx tick called
  wait-EndsSpaced w again h p = elim (Bool-cases (poll_interval env == 0)) [
    | inl z ↦ absurd (never_zero env (ground (arith, z)))
    | inr z ↦ elim (Bool-cases (env.canceled (suc w.step))) [
      | inl c ↦ simp (z, c) (p.ready, p.spaced)
      | inr c ↦ simp (z, c) (h _ (record { ready = omega arith; spaced = (p.ready, p.spaced) }))
    ]
  ]

  called-EndsSpaced :
      (w : World) → IsPaced env w → IsSpaced (poll_interval env) (called env w).calls
  unfolding called tick
  called-EndsSpaced w p = (p.ready, p.spaced)

  -- A transition ends a loop; it makes no call.
  moved-EndsSpaced :
      (to : Status) (kind : EventType) (attrs : List Attr) (w : World)
      → IsSpaced (poll_interval env) w.calls
      → EndsSpaced env (transition_to env to kind attrs w)
  moved-EndsSpaced to kind attrs w h = rw (transition_to-calls env to kind attrs w) h

  on_calendar-EndsSpaced :
      (again : World → Outcome) (answer : Result ProviderError Calendar) (w : World)
      → ((v : World) → IsPaced env v → EndsSpaced env (again v))
      → IsPaced env w
      → EndsSpaced env (on_calendar env again answer (called env w))
  unfolding on_calendar probe_hit
  on_calendar-EndsSpaced again (err e) w h p = called-EndsSpaced w p
  on_calendar-EndsSpaced again (ok cal) w h p =
      elim (Bool-cases (calendar_contains_available cal.days (called env w).live.intent.date)) [
        | inl hit ↦ rw hit (
            moved-EndsSpaced _ _ _ _
              (rw (record_observed-calls env (called env w)) (called-EndsSpaced w p)))
        | inr miss ↦ rw miss (wait-EndsSpaced w again h p)
      ]

  on_slots-EndsSpaced :
      (again : World → Outcome) (answer : Result ProviderError (List Slot)) (w : World)
      → ((v : World) → IsPaced env v → EndsSpaced env (again v))
      → IsPaced env w
      → EndsSpaced env (on_slots env again answer (called env w))
  unfolding on_slots continuous_hit
  on_slots-EndsSpaced again (err inventory_empty) w h p = wait-EndsSpaced w again h p
  on_slots-EndsSpaced again (err e) w h p = called-EndsSpaced w p
  on_slots-EndsSpaced again (ok []) w h p = wait-EndsSpaced w again h p
  on_slots-EndsSpaced again (ok (slot ∷ slots)) w h p =
      moved-EndsSpaced _ _ _ _ (called-EndsSpaced w p)

  discover_round-EndsSpaced :
      (to : Time) (again : World → Outcome) (w : World)
      → ((v : World) → IsPaced env v → EndsSpaced env (again v))
      → IsPaced env w
      → EndsSpaced env (discover_round env to again w)
  unfolding discover_round probe_expired
  discover_round-EndsSpaced to again w h p = elim (Bool-cases (env.canceled w.step)) [
    | inl c ↦ rw c p.spaced
    | inr c ↦ elim (Bool-cases (ltb w.now to)) [
      | inr late ↦ rw (c, late) (moved-EndsSpaced _ _ _ _ p.spaced)
      | inl early ↦ rw (c, early) (on_calendar-EndsSpaced again _ w h p)
    ]
  ]

  continuous_round-EndsSpaced :
      (end : Time) (again : World → Outcome) (w : World)
      → ((v : World) → IsPaced env v → EndsSpaced env (again v))
      → IsPaced env w
      → EndsSpaced env (continuous_round env end again w)
  unfolding continuous_round continuous_expired
  continuous_round-EndsSpaced end again w h p = elim (Bool-cases (env.canceled w.step)) [
    | inl c ↦ rw c p.spaced
    | inr c ↦ elim (Bool-cases (ltb w.now end)) [
      | inr late ↦ rw (c, late) (moved-EndsSpaced _ _ _ _ p.spaced)
      | inl early ↦ rw (c, early) (on_slots-EndsSpaced again _ w h p)
    ]
  ]

  discover_loop-EndsSpaced :
      (fuel : ℕ) (to : Time) (w : World)
      → IsPaced env w
      → EndsSpaced env (discover_loop env fuel to w)
  unfolding discover_loop
  discover_loop-EndsSpaced zero to w p = p.spaced
  discover_loop-EndsSpaced (suc fuel) to w p =
      discover_round-EndsSpaced to _ w (λ v. discover_loop-EndsSpaced fuel to v) p

  continuous_loop-EndsSpaced :
      (fuel : ℕ) (end : Time) (w : World)
      → IsPaced env w
      → EndsSpaced env (continuous_loop env fuel end w)
  unfolding continuous_loop
  continuous_loop-EndsSpaced zero end w p = p.spaced
  continuous_loop-EndsSpaced (suc fuel) end w p =
      continuous_round-EndsSpaced end _ w (λ v. continuous_loop-EndsSpaced fuel end v) p

-- However the provider, the store and the clock behave, each call of the provider in either polling
-- loop comes at least a poll interval after the one before it, where the loop was entered with the
-- calls so far spaced; and the interval is never under 100 ms, whatever the configured poll floor.
pub loops-IsSpaced :
    (env : Env) (fuel : ℕ) (end : Time) (w : World)
    → IsPaced env w
    → IsSpaced (poll_interval env) (discover_loop env fuel end w).1.calls
      × IsSpaced (poll_interval env) (continuous_loop env fuel end w).1.calls
      × (100 * millisecond ≤ poll_interval env)
loops-IsSpaced env fuel end w p = (
  discover_loop-EndsSpaced env fuel end w p,
  continuous_loop-EndsSpaced env fuel end w p,
  poll_interval-ge env,
)
