-- ===== src/Engine/Release/Ends.antt =====
-- The release loops of internal/engine/release.go end: with fuel for each poll interval of the
-- window no call runs out of it.
use resy_snipe.Engine.Release.Observe.{calendar_contains_available}
use resy_snipe.Domain.Status.{Status}
use resy_snipe.Providers.{ProviderError, Calendar, Slot, inventory_empty}
use resy_snipe.Domain.Dates.{Time, millisecond}
use resy_snipe.Prelude.Results.{Result, err, ok}
use resy_snipe.Domain.Snipe.{SnipeState, transition, Event, EventType, Attr}
use resy_snipe.Engine.Transition.{persist, transition_to, event_of}
use resy_snipe.Prelude.{
  ℕ, ◌*◌, ◌+◌, ◌≢◌, ◌≤◌, Bool-cases, arith, suc, ◌<◌, List, inl, zero, ◌==◌, inr, ltb, ◌∷◌, [],
  ltb→lt,
}
use resy_snipe.Engine.Release.{
  continuous_loop, continuous_round, discover_loop, discover_round, on_calendar, on_slots,
  continuous_expired, probe_expired, probe_hit,
}
use resy_snipe.Engine.World.{
  Env, Outcome, World, called, poll_interval, wait_with_ctx, and_then, tick, out_of_fuel,
}

-- A call came to its own end.
abbrev pub HasEnded : Outcome → Type 0
HasEnded o = o.0 ≢ err out_of_fuel

abbrev pub poll_minimum : ℕ
poll_minimum = 100 * millisecond

persist-HasEnded :
    (env : Env) (candidate : SnipeState) (ev : Event) (w : World)
    → HasEnded (persist env candidate ev w)
unfolding persist
persist-HasEnded env candidate ev w = ground arith

transition_to-HasEnded :
    (env : Env) (to : Status) (kind : EventType) (attrs : List Attr) (w : World)
    → HasEnded (transition_to env to kind attrs w)
unfolding transition_to transition
transition_to-HasEnded env to kind attrs w = ground (
  arith,
  persist-HasEnded env (record w.live { status = to; updated_at = w.now }) (event_of w kind attrs)
      w,
)

-- A wait that is not canceled takes at least its duration.
wait-HasEnded :
    (env : Env) (d : ℕ) (w : World) (again : World → Outcome)
    → ((v : World) → w.now + d ≤ v.now → HasEnded (again v))
    → HasEnded (and_then (wait_with_ctx env d w) again)
unfolding wait_with_ctx tick
wait-HasEnded env d w again h = elim (Bool-cases (d == 0)) [
  | inl z ↦ rw z (h w (ground arith))
  | inr z ↦ elim (Bool-cases (env.canceled w.step)) [
    | inl c ↦ rw (z, c) (λ e. cc)
    | inr c ↦ rw (z, c) (h _ (omega arith))
  ]
]

pub poll_interval-ge : (env : Env) → poll_minimum ≤ poll_interval env
unfolding poll_interval
poll_interval-ge env = omega arith

called-now : (env : Env) (w : World) → w.now ≤ (called env w).now
unfolding called tick
called-now env w = omega arith

-- The rest of the loop ends from every world that is a poll interval later.
abbrev EndsLater : World → (World → Outcome) → Type 0
EndsLater w again = (v : World) → w.now + poll_minimum ≤ v.now → HasEnded (again v)

poll_again-HasEnded :
    (env : Env) (again : World → Outcome) (w : World)
    → EndsLater w again
    → HasEnded (and_then (wait_with_ctx env (poll_interval env) (called env w)) again)
poll_again-HasEnded env again w h =
    wait-HasEnded env (poll_interval env) (called env w) again
      (λ v later. h v (omega (arith, poll_interval-ge env, called-now env w)))

on_calendar-HasEnded :
    (env : Env) (again : World → Outcome) (answer : Result ProviderError Calendar) (w : World)
    → EndsLater w again
    → HasEnded (on_calendar env again answer (called env w))
unfolding on_calendar probe_hit
on_calendar-HasEnded env again (err e) w h = λ e'. cc
on_calendar-HasEnded env again (ok cal) w h =
    elim (Bool-cases (calendar_contains_available cal.days (called env w).live.intent.date)) [
      | inl hit ↦ rw hit (transition_to-HasEnded env _ _ _ _)
      | inr miss ↦ rw miss (poll_again-HasEnded env again w h)
    ]

on_slots-HasEnded :
    (env : Env) (again : World → Outcome) (answer : Result ProviderError (List Slot)) (w : World)
    → EndsLater w again
    → HasEnded (on_slots env again answer (called env w))
unfolding on_slots
on_slots-HasEnded env again (err inventory_empty) w h = poll_again-HasEnded env again w h
on_slots-HasEnded env again (err e) w h = λ e'. cc
on_slots-HasEnded env again (ok []) w h = poll_again-HasEnded env again w h
on_slots-HasEnded env again (ok (slot ∷ slots)) w h = transition_to-HasEnded env _ _ _ _

-- A round ends if the rest of the loop does, and without it once the window is over.
discover_round-HasEnded :
    (env : Env) (to : Time) (again : World → Outcome) (w : World)
    → (w.now < to → EndsLater w again)
    → HasEnded (discover_round env to again w)
unfolding discover_round probe_expired
discover_round-HasEnded env to again w h = elim (Bool-cases (env.canceled w.step)) [
  | inl c ↦ rw c (λ e. cc)
  | inr c ↦ elim (Bool-cases (ltb w.now to)) [
    | inr late ↦ rw (c, late) (transition_to-HasEnded env _ _ _ _)
    | inl early ↦ rw (c, early) (on_calendar-HasEnded env again _ w (h (ltb→lt _ _ early)))
  ]
]

continuous_round-HasEnded :
    (env : Env) (end : Time) (again : World → Outcome) (w : World)
    → (w.now < end → EndsLater w again)
    → HasEnded (continuous_round env end again w)
unfolding continuous_round continuous_expired
continuous_round-HasEnded env end again w h = elim (Bool-cases (env.canceled w.step)) [
  | inl c ↦ rw c (λ e. cc)
  | inr c ↦ elim (Bool-cases (ltb w.now end)) [
    | inr late ↦ rw (c, late) (transition_to-HasEnded env _ _ _ _)
    | inl early ↦ rw (c, early) (on_slots-HasEnded env again _ w (h (ltb→lt _ _ early)))
  ]
]

-- With one round of fuel, and one more for each 100 ms between now and the end of the window, the
-- loop of a discovered release never runs out of fuel, whatever the provider, the store and the
-- clock do and however small the configured poll floor is.
pub discover_loop-HasEnded :
    (fuel : ℕ) (env : Env) (to : Time) (w : World)
    → to ≤ w.now + poll_minimum * fuel
    → HasEnded (discover_loop env (suc fuel) to w)
unfolding discover_loop
discover_loop-HasEnded zero env to w h =
    discover_round-HasEnded env to _ w (λ early. absurd (omega arith))
discover_loop-HasEnded (suc fuel) env to w h =
    discover_round-HasEnded env to _ w
      (λ early v later. discover_loop-HasEnded fuel env to v (omega arith))

-- With one round of fuel, and one more for each 100 ms between now and the end of the window, the
-- loop of a continuous release never runs out of fuel, whatever the provider, the store and the
-- clock do and however small the configured poll floor is.
pub continuous_loop-HasEnded :
    (fuel : ℕ) (env : Env) (end : Time) (w : World)
    → end ≤ w.now + poll_minimum * fuel
    → HasEnded (continuous_loop env (suc fuel) end w)
unfolding continuous_loop
continuous_loop-HasEnded zero env end w h =
    continuous_round-HasEnded env end _ w (λ early. absurd (omega arith))
continuous_loop-HasEnded (suc fuel) env end w h =
    continuous_round-HasEnded env end _ w
      (λ early v later. continuous_loop-HasEnded fuel env end v (omega arith))
