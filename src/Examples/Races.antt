-- ===== src/Examples/Races.antt =====
-- Tests of internal/engine/race.go.
use resy_snipe.Engine.Race.Unsaved.{book_winner_unsaved}
use resy_snipe.Prelude.Results.{err}
use resy_snipe.Domain.Snipe.{transition, SnipeState}
use resy_snipe.Domain.Status.{can_transition, name, allowed_transitions, booking}
use resy_snipe.Engine.Transition.{transition_to, persist}
use resy_snipe.Engine.Race.Rank.Order.{rank_slots-IsStable, IsRank}
use resy_snipe.Engine.Transition.Atomic.{IsStored, IsSynced}
use resy_snipe.Engine.Race.Interleavings.{IsRefused, play-IsSound, play-IsRefused}
use resy_snipe.Examples.{env, dinner, slot_of, world, snipe, receipt_number, two_snipes}
use resy_snipe.Providers.{Slot}
use resy_snipe.Engine.Race.Rank.{priority, rank_slots}
use resy_snipe.Engine.Race.Booked.{IsBooked, run_booking_race-IsBooked, receipt_of}
use resy_snipe.Engine.Race.Sound.{IsSound}
use resy_snipe.Store.Snipes.{
  find_row, row_of, transition_snipe, update_row, stored_intent, encode_release,
}
use resy_snipe.Engine.World.{World, wait_with_ctx, poll_interval, called, tick, Env, store_failure}
use resy_snipe.Prelude.{List, All, none, refl, ◌∷◌, ◌≡◌, [], some, ℕ, true}
use resy_snipe.Engine.Race.{
  Race, play, run_booking_race, RaceMove, loop_move, start_race, thread_move, enter_finding,
  find_and_race, on_found, enter_booking, race_from, settle, on_winner, book_winner,
}
use resy_snipe.Prelude.Sorts.{IsOrdered, of_key, sort_by, insert_by}

is_stored : IsStored world
unfolding find_row row_of
is_stored = record { row = row_of snipe; found = refl; created = refl }

abbrev ranked : List Slot
ranked = slot_of 19 "b" ∷ slot_of 18 "a" ∷ []

rank_slots-IsStable_example :
    ((s : Slot) → IsRank dinner.slot_prefs s (priority dinner.slot_prefs s))
    × IsOrdered (priority dinner.slot_prefs) (rank_slots ranked dinner.slot_prefs)
    × ((k : ℕ)
        → of_key (priority dinner.slot_prefs) k (rank_slots ranked dinner.slot_prefs)
          ≡ of_key (priority dinner.slot_prefs) k ranked)
rank_slots-IsStable_example = rank_slots-IsStable ranked dinner.slot_prefs

-- Both slots are prepared; the first is refused, the second wins.
abbrev moves : List RaceMove
moves =
    loop_move
    ∷ loop_move
    ∷ thread_move 0
    ∷ loop_move
    ∷ loop_move
    ∷ thread_move 1
    ∷ thread_move 1
    ∷ thread_move 1
    ∷ []

abbrev played : Race
played = elim (play env moves (start_race ranked world)) [ none ↦ start_race [] world | some r ↦ r ]

play_test : play env moves (start_race ranked world) ≡ some played
unfolding play wait_with_ctx poll_interval
play_test = refl

play-IsSound_example : IsSound env ranked world played
play-IsSound_example = play-IsSound env ranked world moves played play_test

abbrev first_moves : List RaceMove
first_moves = loop_move ∷ thread_move 0 ∷ []

abbrev refused_race : Race
refused_race = elim (play env first_moves (start_race ranked world)) [
  | none ↦ start_race [] world
  | some r ↦ r
]

play-IsRefused_example : All (IsRefused env ranked) refused_race.threads
unfolding play
play-IsRefused_example = play-IsRefused env ranked world first_moves refused_race refl refl refl

abbrev booked_world : World
booked_world = elim (run_booking_race env moves world) [ none ↦ world | some o ↦ o.1 ]

run_booking_race-IsBooked_example : IsBooked env world.live.intent booked_world
unfolding run_booking_race enter_finding find_and_race on_found enter_booking race_from play settle
    on_winner book_winner transition_to persist can_transition transition transition_snipe called
    tick wait_with_ctx poll_interval rank_slots priority sort_by insert_by update_row row_of
    stored_intent encode_release name allowed_transitions
run_booking_race-IsBooked_example =
    run_booking_race-IsBooked env moves world booked_world is_stored refl

-- The winner comes when the store fails.
abbrev broken_env : Env
broken_env = record env { store_fails = λ n. true }

abbrev booking_snipe : SnipeState
booking_snipe = record snipe { status = booking }

abbrev booking_world : World
booking_world = record world {
  live = booking_snipe;
  db = record two_snipes { snipes = row_of booking_snipe ∷ [] };
}

book_winner_unsaved_example :
    ((book_winner broken_env receipt_number booking_world).0 ≡ err store_failure)
    × ((book_winner broken_env receipt_number booking_world).1.db ≡ booking_world.db)
    × ((book_winner broken_env receipt_number booking_world).1.live
        ≡ record booking_snipe { result = some (receipt_of receipt_number) })
    × ¬ IsSynced (book_winner broken_env receipt_number booking_world).1
unfolding find_row row_of
book_winner_unsaved_example =
    book_winner_unsaved broken_env receipt_number booking_world refl refl refl refl
