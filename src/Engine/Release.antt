-- ===== src/Engine/Release.antt =====
-- internal/engine/release.go: the three release strategies from the scheduled time on. A loop takes
-- fuel, which Engine/Release/Ends shows to be enough.
use resy_snipe.Providers.{inventory_empty, ProviderError, Calendar, Slot}
use resy_snipe.Engine.Release.Observe.{calendar_contains_available, record_observed}
use resy_snipe.Domain.Intent.{
  explicit_release, venue_text, discovered_release, continuous_release, ReleaseStrategy,
}
use resy_snipe.Domain.Snipe.{
  failed_event, released_event, reason, venue_ref, discovered_event, observed_at, probe_from,
  probe_until, found_event, slot_count, expired_event, until,
}
use resy_snipe.Domain.Status.{awaiting, failed, status_eq, discovering, expired}
use resy_snipe.Engine.Transition.{transition_to}
use resy_snipe.Prelude.Results.{err, ok, Result}
use resy_snipe.Domain.Dates.{Time, is_zero}
use resy_snipe.Prelude.{
  ℕ, if◌then◌else◌, none, some, suc, ◌||◌, not, ◌∷◌, [], ltb, length, ◌-◌, zero, List, Option,
}
use resy_snipe.Engine.World.{
  Env, World, Outcome, nil_release, out_of_fuel, until_required, and_then, bad_probe_window,
  provider_failure, called, wait_with_ctx, poll_interval, context_canceled, missing_provider,
}
pub mod Observe
pub mod Progress
pub mod Ends
pub mod Pacing
pub mod Steps
pub mod Closing

-- advanceToDiscovering.
unfoldable pub advance_to_discovering : Env → Time → Time → World → Outcome
advance_to_discovering env from to w =
    if status_eq w.live.status discovering
    then (ok tt, w)
    else transition_to env discovering discovered_event
        (venue_ref (venue_text w.live.intent.venue) ∷ probe_from from ∷ probe_until to ∷ []) w

-- The window closed without a hit.
unfoldable pub probe_expired : Env → Time → World → Outcome
probe_expired env to w =
    transition_to env failed failed_event (reason "discovered_window_expired" ∷ probe_until to ∷ [])
      w

-- The target date is there.
unfoldable pub probe_hit : Env → World → Outcome
probe_hit env w =
    transition_to env awaiting released_event
      (venue_ref (venue_text w.live.intent.venue) ∷ observed_at w.now ∷ []) (record_observed env w)

-- What the round does with the calendar's answer; `again` is the rest of the loop.
unfoldable pub on_calendar :
    Env → (World → Outcome) → Result ProviderError Calendar → World → Outcome
on_calendar env again (err e) w = (err (provider_failure e), w)
on_calendar env again (ok cal) w =
    if calendar_contains_available cal.days w.live.intent.date
    then probe_hit env w
    else and_then (wait_with_ctx env (poll_interval env) w) again

abbrev pub ask_calendar : Env → World → Result ProviderError Calendar
ask_calendar env w =
    env.calendar w.step w.live.intent.venue w.live.intent.date w.live.intent.party_size

-- One round of the loop of runDiscoveredRelease.
unfoldable pub discover_round : Env → Time → (World → Outcome) → World → Outcome
discover_round env to again w =
    if env.canceled w.step
    then (err context_canceled, w)
    else if not (ltb w.now to)
    then probe_expired env to w
    else on_calendar env again (ask_calendar env w) (called env w)

-- The loop, for at most `fuel` rounds.
unfoldable pub discover_loop : Env → ℕ → Time → World → Outcome
discover_loop env zero to w = (err out_of_fuel, w)
discover_loop env (suc fuel) to w = discover_round env to (discover_loop env fuel to) w

-- The wait for ProbeFrom, if it lies ahead, and then the loop.
unfoldable pub wait_to_probe : Env → ℕ → Time → Time → World → Outcome
wait_to_probe env fuel from to w =
    and_then (wait_with_ctx env (from - w.now) w) (discover_loop env fuel to)

-- runDiscoveredRelease.
unfoldable pub run_discovered_release : Env → ℕ → Time → Time → World → Outcome
run_discovered_release env fuel from to w =
    if is_zero from || is_zero to
    then (err bad_probe_window, w)
    else if not (ltb from to)
    then (err bad_probe_window, w)
    else and_then (advance_to_discovering env from to w) (wait_to_probe env fuel from to)

unfoldable pub continuous_expired : Env → Time → World → Outcome
continuous_expired env end w =
    transition_to env expired expired_event (reason "continuous_window_expired" ∷ until end ∷ []) w

unfoldable pub continuous_hit : Env → ℕ → World → Outcome
continuous_hit env count w =
    transition_to env awaiting found_event
      (venue_ref (venue_text w.live.intent.venue) ∷ slot_count count ∷ []) w

-- An empty inventory, as an error or as an empty answer, is asked for again.
unfoldable pub on_slots :
    Env → (World → Outcome) → Result ProviderError (List Slot) → World → Outcome
unfolding continuous_hit
on_slots env again (err inventory_empty) w =
    and_then (wait_with_ctx env (poll_interval env) w) again
on_slots env again (err e) w = (err (provider_failure e), w)
on_slots env again (ok []) w = and_then (wait_with_ctx env (poll_interval env) w) again
on_slots env again (ok (slot ∷ slots)) w = continuous_hit env (length (slot ∷ slots)) w

-- One round of the loop of runContinuousRelease.
unfoldable pub continuous_round : Env → Time → (World → Outcome) → World → Outcome
continuous_round env end again w =
    if env.canceled w.step
    then (err context_canceled, w)
    else if not (ltb w.now end)
    then continuous_expired env end w
    else on_slots env again (env.find w.step w.live.intent []) (called env w)

unfoldable pub continuous_loop : Env → ℕ → Time → World → Outcome
continuous_loop env zero end w = (err out_of_fuel, w)
continuous_loop env (suc fuel) end w = continuous_round env end (continuous_loop env fuel end) w

unfoldable pub run_continuous_release : Env → ℕ → Time → World → Outcome
run_continuous_release env fuel end w =
    if is_zero end then (err until_required, w) else continuous_loop env fuel end w

unfoldable pub by_release : Env → ℕ → World → Option ReleaseStrategy → Outcome
by_release env fuel w none = (err nil_release, w)
by_release env fuel w (some (explicit_release at)) =
    transition_to env awaiting released_event (venue_ref (venue_text w.live.intent.venue) ∷ []) w
by_release env fuel w (some (discovered_release from to)) =
    if env.has_provider
    then run_discovered_release env fuel from to w
    else (err missing_provider, w)
by_release env fuel w (some (continuous_release end)) =
    if env.has_provider then run_continuous_release env fuel end w else (err missing_provider, w)

-- runStrategy, which fireRelease calls.
unfoldable pub run_strategy : Env → ℕ → World → Outcome
run_strategy env fuel w = by_release env fuel w w.live.intent.release
