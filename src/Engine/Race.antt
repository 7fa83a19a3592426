-- ===== src/Engine/Race.antt =====
-- internal/engine/race.go: the booking race. A run of it is an explicit sequence of moves of the
-- loop and of the goroutines.
use resy_snipe.Domain.Intent.{venue_text}
use resy_snipe.Engine.Race.Rank.{rank_slots, slot_pref_times}
use resy_snipe.Domain.Status.{booked, failed, booking, finding}
use resy_snipe.Engine.Transition.{transition_to}
use resy_snipe.Domain.Snipe.{
  Receipt, booked_event, failed_event, reason, venue_ref, book_attempted_event, err_text,
  found_event, booked_as, slot_count,
}
use resy_snipe.Prelude.Results.{Result, err, ok}
use resy_snipe.Prelude.{
  Bool, List, ℕ, Option, String, [], false, true, ◌∷◌, get_elem?, if◌then◌else◌, none, some, suc,
  ◌&&◌, not, zero, ◌++◌, ◌||◌, length,
}
use resy_snipe.Engine.World.{
  Env, World, Outcome, EngineError, all_attempts_failed, provider_failure, tick, called,
  missing_provider, no_preparer, wait_with_ctx, poll_interval, race_failed, race_unrecorded,
}
use resy_snipe.Providers.{
  ProviderError, Slot, Confirmation, rate_limited, anti_bot_challenge, inventory_empty,
}
use resy_snipe.Domain.Idempotency.{idempotency_key}
pub mod Rank
pub mod Threads
pub mod Sound
pub mod Moves
pub mod Interleavings
pub mod Booked
pub mod Unsaved

-- A goroutine of the race: in ConfirmSlot; with a confirmation, before the select; with the
-- confirmation sent, before cancel(); and the three ways in which it ends.
pub data Thread : Type 0 where
  confirming : Slot → String → Thread
  confirmed sent won dropped : Confirmation → Thread
  refused : ProviderError → Thread

-- The loop over the ranked slots: at its head, with the index and the slots left; before the wait
-- between two calls; left; or returned from, since the provider blocks.
pub data Loop : Type 0 where
  head pause : ℕ → List Slot → Loop
  left : Loop
  blocked : ProviderError → Loop

-- `canceled` is raceCtx; `results` the channel, whose capacity is the number of slots.
pub record Race : Type 0 where
  pub world : World
  pub loop : Loop
  pub threads : List Thread
  pub results : List Confirmation
  pub canceled : Bool

pub data RaceMove : Type 0 where
  loop_move : RaceMove
  thread_move give_up : ℕ → RaceMove

abbrev pub set_thread : ℕ → Thread → List Thread → List Thread
set_thread i t [] = []
set_thread zero t (u ∷ us) = t ∷ us
set_thread (suc i) t (u ∷ us) = u ∷ set_thread i t us

-- The two errors of PrepareSlot that end the race.
abbrev pub blocks : ProviderError → Bool
blocks rate_limited = true
blocks anti_bot_challenge = true
blocks e = false

-- No wait follows the last slot.
abbrev pub after_launch : ℕ → List Slot → Loop
after_launch i [] = head i []
after_launch i (s ∷ rest) = pause i (s ∷ rest)

key_of : Env → World → Slot → ℕ → String
key_of env w s attempt =
    idempotency_key env.decimal env.sha256_hex (env.intent_hash w.live.intent) s.payload attempt

-- What the loop does with the answer of PrepareSlot for the slot of index `i`.
unfoldable pub on_prepared : Env → ℕ → List Slot → Result ProviderError Slot → Race → Race
unfolding key_of
on_prepared env i rest (err e) r =
    if blocks e then record r { loop = blocked e } else record r { loop = head (suc i) rest }
on_prepared env i rest (ok s) r = record r {
  loop = after_launch (suc i) rest;
  threads = r.threads ++ confirming s (key_of env r.world s (suc i)) ∷ [];
}

unfoldable pub on_paused : ℕ → List Slot → Outcome → Race → Race
on_paused i rest (ok done, w) r = record r { world = w; loop = head i rest }
on_paused i rest (err e, w) r = record r { world = w; loop = left }

-- One move of the loop, where it has one.
unfoldable pub move_loop : Env → Loop → Race → Option Race
unfolding on_prepared on_paused
move_loop env (head i []) r = some (record r { loop = left })
move_loop env (head i (s ∷ rest)) r = some (
    if env.canceled r.world.step || r.canceled
    then record r { loop = left }
    else on_prepared env i rest (env.prepare r.world.step s)
        (record r { world = called env r.world }))
move_loop env (pause i rest) r =
    some (on_paused i rest (wait_with_ctx env (poll_interval env) r.world) r)
move_loop env left r = none
move_loop env (blocked e) r = none

-- ConfirmSlot answers the goroutine `i`.
unfoldable pub on_confirm : ℕ → Result ProviderError Confirmation → Race → Race
on_confirm i (ok c) r = record r { threads = set_thread i (confirmed c) r.threads }
on_confirm i (err e) r = record r { threads = set_thread i (refused e) r.threads }

-- One move of the goroutine `i` in the state given.
unfoldable pub move_thread : Env → ℕ → Option Thread → Race → Option Race
unfolding on_confirm
move_thread env i (some (confirming s key)) r =
    some (on_confirm i (env.confirm i s key) (record r { world = tick env r.world }))
move_thread env i (some (confirmed c)) r =
    some (record r { threads = set_thread i (sent c) r.threads; results = r.results ++ c ∷ [] })
move_thread env i (some (sent c)) r =
    some (record r { threads = set_thread i (won c) r.threads; canceled = true })
move_thread env i other r = none

-- The other branch of the select, which is open once raceCtx is canceled.
unfoldable pub move_give_up : ℕ → Option Thread → Race → Option Race
move_give_up i (some (confirmed c)) r =
    if r.canceled then some (record r { threads = set_thread i (dropped c) r.threads }) else none
move_give_up i other r = none

unfoldable pub race_step : Env → RaceMove → Race → Option Race
unfolding move_loop move_thread move_give_up
race_step env loop_move r = move_loop env r.loop r
race_step env (thread_move i) r = move_thread env i (get_elem? r.threads i) r
race_step env (give_up i) r = move_give_up i (get_elem? r.threads i) r

-- What follows a move or a race that is possible.
abbrev pub then_play {ℓ} : {A : Type ℓ} → Option Race → (Race → Option A) → Option A
then_play none f = none
then_play (some r) f = f r

unfoldable pub play : Env → List RaceMove → Race → Option Race
unfolding race_step
play env [] r = some r
play env (m ∷ moves) r = then_play (race_step env m r) (play env moves)

abbrev pub start_race : List Slot → World → Race
start_race ranked w = record {
  world = w;
  loop = head 0 ranked;
  threads = [];
  results = [];
  canceled = false;
}

abbrev pub has_exited : Thread → Bool
has_exited (confirming s key) = false
has_exited (confirmed c) = false
has_exited (sent c) = false
has_exited t = true

-- wg.Wait returns.
abbrev pub all_exited : List Thread → Bool
all_exited [] = true
all_exited (t ∷ ts) = has_exited t && all_exited ts

-- failWithReason.
abbrev pub with_reason : String → EngineError → Outcome → Outcome
with_reason why cause (ok done, w) = (err (race_failed why cause), w)
with_reason why cause (err e, w) = (err (race_unrecorded why e cause), w)

unfoldable pub fail_with_reason : Env → String → EngineError → String → World → Outcome
fail_with_reason env why cause text w =
    with_reason why cause
      (transition_to env failed failed_event (reason why ∷ err_text text ∷ []) w)

-- The winner's receipt is written into the snipe in memory before the transition.
unfoldable pub book_winner : Env → Confirmation → World → Outcome
book_winner env c w =
    let receipt : Receipt = record { booked_at = c.booked_at; confirmation_id = c.id } in
    transition_to env booked booked_event
      (venue_ref (venue_text w.live.intent.venue) ∷ booked_as c.id ∷ [])
      (record w { live = record w.live { result = some receipt } })

unfoldable pub on_winner : Env → List Confirmation → World → Outcome
on_winner env [] w =
    fail_with_reason env "all_attempts_failed" all_attempts_failed "no slot booked" w
on_winner env (c ∷ later) w = book_winner env c w

-- How RunBookingRace returns, once it does: at once if the provider blocks, and otherwise when
-- every goroutine has ended.
unfoldable pub settle : Env → Loop → Race → Option Outcome
settle env (blocked e) r =
    some (fail_with_reason env "prepare_blocked" (provider_failure e) (env.error_text e) r.world)
settle env left r = if all_exited r.threads then some (on_winner env r.results r.world) else none
settle env running r = none

unfoldable pub race_from : Env → List RaceMove → List Slot → World → Option Outcome
race_from env moves ranked w =
    then_play (play env moves (start_race ranked w)) (λ r. settle env r.loop r)

-- `if err := ...; err != nil { return err }` before a part that may not have returned.
abbrev pub and_race : Outcome → (World → Option Outcome) → Option Outcome
and_race (ok done, w) f = f w
and_race (err e, w) f = some (err e, w)

-- Finding -> Booking, and the race.
unfoldable pub enter_booking : Env → List RaceMove → List Slot → World → Option Outcome
enter_booking env moves ranked w =
    and_race
      (transition_to env booking book_attempted_event
        (venue_ref (venue_text w.live.intent.venue) ∷ slot_count (length ranked) ∷ []) w)
      (race_from env moves ranked)

-- From the answer of Find to the race.
unfoldable pub on_found :
    Env → List RaceMove → Result ProviderError (List Slot) → World → Option Outcome
on_found env moves (err e) w =
    some (fail_with_reason env "find_failed" (provider_failure e) (env.error_text e) w)
on_found env moves (ok []) w = some (
    fail_with_reason env "inventory_empty" (provider_failure inventory_empty)
      (env.error_text inventory_empty) w)
on_found env moves (ok (s ∷ slots)) w =
    enter_booking env moves (rank_slots (s ∷ slots) w.live.intent.slot_prefs) w

unfoldable pub find_and_race : Env → List RaceMove → World → Option Outcome
find_and_race env moves w =
    let times = slot_pref_times w.live.intent.slot_prefs [] in
    on_found env moves (env.find w.step w.live.intent times) (called env w)

-- Awaiting -> Finding, and what follows.
unfoldable pub enter_finding : Env → List RaceMove → World → Option Outcome
enter_finding env moves w =
    and_race
      (transition_to env finding found_event (venue_ref (venue_text w.live.intent.venue) ∷ []) w)
      (find_and_race env moves)

-- RunBookingRace; `none` when the moves are not those of a race that returns.
unfoldable pub run_booking_race : Env → List RaceMove → World → Option Outcome
run_booking_race env moves w =
    if not env.has_provider
    then some (err missing_provider, w)
    else if not env.is_preparer
    then some (err no_preparer, w)
    else enter_finding env moves w
