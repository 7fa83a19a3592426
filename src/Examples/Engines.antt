-- ===== src/Examples/Engines.antt =====
-- Tests of internal/engine/state.go, run.go and release.go.
use resy_snipe.Engine.Transition.Submit.{Submits, submit_cases}
use resy_snipe.Engine.Release.Closing.{run_strategy-IsClosed}
use resy_snipe.Engine.Release.Pacing.{IsSpaced, loops-IsSpaced}
use resy_snipe.Engine.Run.Explicit.{IsReleased, IsReliable, run-IsReleased}
use resy_snipe.Engine.Subscribe.{Registry, emit_to, callbacks, lookup, sort_from, insert_down}
use resy_snipe.Engine.Run.Sync.{with_loaded, run-Progress}
use resy_snipe.Domain.Intent.{venue_text, explicit_release}
use resy_snipe.Engine.Progress.{Progress}
use resy_snipe.Engine.World.{store_failure, World, poll_interval, tick, store_refused}
use resy_snipe.Domain.Snipe.{
  found_event, scheduled_event, scheduled_at, venue_ref, SnipeState, transition,
}
use resy_snipe.Prelude.Results.{err}
use resy_snipe.Engine.Transition.{event_of, transition_to, transition_to_scheduled, persist, submit}
use resy_snipe.Domain.Status.{finding, scheduled, can_transition, awaiting}
use resy_snipe.Domain.Dates.{millisecond}
use resy_snipe.Engine.Run.{run}
use resy_snipe.Prelude.{◌*◌, refl, ◌≡◌, arith, [], ◌∷◌, ◌⊎◌, String, some, ◌≤◌, none, false}
use resy_snipe.Examples.{env, snipe, world, venue, other_snipe, dinner, two_snipes}
use resy_snipe.Engine.Release.{continuous_loop, discover_loop, run_strategy, by_release}
use resy_snipe.Engine.Transition.Atomic.{
  Gated, IsStored, IsUnchanged, transition_to-Gated, transition_to_scheduled-Gated, IsSynced,
}
use resy_snipe.Store.Snipes.{
  find_row, row_of, transition_snipe, update_row, SnipeRow, already_exists,
}
use resy_snipe.Engine.Release.Ends.{HasEnded, discover_loop-HasEnded}

is_stored : IsStored world
unfolding find_row row_of
is_stored = record { row = row_of snipe; found = refl; created = refl }

transition_to-Gated_example :
    Gated env
      (record snipe { status = finding; updated_at = 50 })
      (event_of world found_event [])
      world
      (transition_to env finding found_event [] world)
transition_to-Gated_example = transition_to-Gated env finding found_event [] world is_stored

transition_to_scheduled-Gated_example :
    Gated env
      (record snipe { status = scheduled; scheduled_at = 60; updated_at = 50 })
      (event_of world scheduled_event (scheduled_at 60 ∷ venue_ref (venue_text venue) ∷ []))
      world
      (transition_to_scheduled env 60 world)
transition_to_scheduled-Gated_example = transition_to_scheduled-Gated env 60 world is_stored

run-Progress_example :
    ((run env 3 "snp_2" world).0 ≡ err store_failure)
      × IsUnchanged world (run env 3 "snp_2" world).1
    ⊎ Progress (with_loaded world other_snipe) (run env 3 "snp_2" world).1
unfolding find_row row_of
run-Progress_example = run-Progress env 3 world other_snipe refl

discover_loop-HasEnded_example : HasEnded (discover_loop env 4 (300 * millisecond) world)
discover_loop-HasEnded_example =
    discover_loop-HasEnded 3 env (300 * millisecond) world (omega arith)

env-IsReliable : IsReliable env
env-IsReliable = record { store_works = λ n. refl; timer_fires = λ n. refl }

-- The second snipe, with a release at a given time.
abbrev explicit_snipe : SnipeState
explicit_snipe = record other_snipe {
  intent = record dinner { release = some (explicit_release 1000) };
}

abbrev explicit_world : World
explicit_world = record world { db = record two_snipes { snipes = row_of explicit_snipe ∷ [] } }

run-IsReleased_example : IsReleased 1000 (run env 0 "snp_2" explicit_world)
unfolding find_row row_of
run-IsReleased_example =
    run-IsReleased env 0 explicit_world explicit_snipe 1000 env-IsReliable refl refl refl

loops-IsSpaced_example :
    IsSpaced (poll_interval env) (discover_loop env 4 (300 * millisecond) world).1.calls
    × IsSpaced (poll_interval env) (continuous_loop env 4 (300 * millisecond) world).1.calls
    × (100 * millisecond ≤ poll_interval env)
loops-IsSpaced_example =
    loops-IsSpaced env 4 (300 * millisecond) world (record { ready = tt; spaced = tt })

abbrev scheduled_world : World
scheduled_world = record explicit_world { live = record explicit_snipe { status = scheduled } }

run_strategy-IsClosed_example :
    ((run_strategy env 0 scheduled_world).1.live.status ≡ awaiting)
    × IsSynced (run_strategy env 0 scheduled_world).1
unfolding run_strategy by_release transition_to persist can_transition transition transition_snipe
    find_row update_row row_of tick
run_strategy-IsClosed_example =
    run_strategy-IsClosed env 0 scheduled_world
      (record { row = row_of explicit_snipe; found = refl; created = refl }) refl

submit_cases_example :
    (find_row "snp_9" two_snipes.snipes ≡ none
      → Submits env "snp_9" dinner world (submit env "snp_9" dinner world))
    × ((r : SnipeRow)
        → find_row "snp_9" two_snipes.snipes ≡ some r
        → false ≡ false
        → ((submit env "snp_9" dinner world).0 ≡ err (store_refused already_exists))
          × IsUnchanged world (submit env "snp_9" dinner world).1)
submit_cases_example = submit_cases env "snp_9" dinner world

abbrev two_subscribers : Registry String
two_subscribers = record { next_sub_id = 5; subs = (4, "print") ∷ (2, "log") ∷ [] }

emit_to_test : emit_to two_subscribers ≡ some "log" ∷ some "print" ∷ []
unfolding emit_to callbacks lookup sort_from insert_down
emit_to_test = refl
