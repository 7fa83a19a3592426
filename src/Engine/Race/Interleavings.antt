-- ===== src/Engine/Race/Interleavings.antt =====
-- Every interleaving of a booking race of internal/engine/race.go is sound, and what follows for
-- its two ways to return.
use resy_snipe.Engine.Race.Moves.{
  Leads, Leads-if, leave-IsSound, then_play-Leads, ticked-IsSound, asked-IsSound, called-IsSound,
  paused-IsSound, wait-IsQuiet,
}
use mathlib.Core.Bool.{false≢true}
use resy_snipe.Engine.Race.Threads.{sends}
use mathlib.Core.List.{Mem}
use resy_snipe.Engine.Race.Sound.{
  IsSound, slots_left, on_confirm-IsSound, send-IsSound, thread-IsSound, cancel-IsSound,
  start_race-IsSound, IsJustified, IsRefusal,
}
use resy_snipe.Providers.{Slot, ProviderError, Confirmation}
use resy_snipe.Prelude.{
  List, Option, ◌≡◌, some, ℕ, arith, none, All, length, Bool-cases, ◌∷◌, [], inl, inr, ap, refl,
  get_elem?, ◌||◌, subst, true, ◌∙◌,
}
use resy_snipe.Engine.Race.{
  Race, left, head, blocked, move_give_up, move_loop, move_thread, play, race_step, Loop, RaceMove,
  Thread, thread_move, confirming, give_up, confirmed, loop_move, pause, dropped, sent, won,
  refused, start_race, all_exited,
}
use resy_snipe.Engine.World.{Env, World, wait_with_ctx, called, poll_interval}

module _ (env : Env) (ranked : List Slot) (w : World) where
  loop_move-Leads :
      (l : Loop) (r : Race)
      → r.loop ≡ l
      → IsSound env ranked w r
      → Leads (IsSound env ranked w) (move_loop env l r)
  unfolding move_loop
  loop_move-Leads (head i []) r at h = leave-IsSound env ranked w r h
  loop_move-Leads (head i (s ∷ rest)) r at h =
      elim (Bool-cases (env.canceled r.world.step || r.canceled)) [
        | inl stop ↦ rw stop (leave-IsSound env ranked w r h)
        | inr go ↦ rw go (
            asked-IsSound env ranked w i s rest (env.prepare r.world.step s)
              (record r { world = called env r.world }) (called-IsSound env ranked w r h)
              (subst (λ k. All (λ u. Mem u ranked) (slots_left k)) at h.remaining)
              (ap (λ k. length (slots_left k)) at) r.world.step refl)
      ]
  loop_move-Leads (pause i rest) r at h =
      paused-IsSound env ranked w i rest (wait_with_ctx env (poll_interval env) r.world) r h
        (subst (λ k. All (λ u. Mem u ranked) (slots_left k)) at h.remaining)
        (omega (arith, ap (λ k. length (slots_left k)) at))
        (wait-IsQuiet env (poll_interval env) r.world)
  loop_move-Leads left r at h = tt
  loop_move-Leads (blocked e) r at h = tt

  thread_move-Leads :
      (i : ℕ) (t : Option Thread) (r : Race)
      → get_elem? r.threads i ≡ t
      → IsSound env ranked w r
      → Leads (IsSound env ranked w) (move_thread env i t r)
  unfolding move_thread
  thread_move-Leads i none r at h = tt
  thread_move-Leads i (some (confirming s key)) r at h =
      on_confirm-IsSound env ranked w _ (ticked-IsSound env ranked w r h) i s key _ at refl
  thread_move-Leads i (some (confirmed c)) r at h = send-IsSound env ranked w r h i c at
  thread_move-Leads i (some (sent c)) r at h = cancel-IsSound env ranked w r h i c at
  thread_move-Leads i (some (won c)) r at h = tt
  thread_move-Leads i (some (dropped c)) r at h = tt
  thread_move-Leads i (some (refused e)) r at h = tt

  give_up-Leads :
      (i : ℕ) (t : Option Thread) (r : Race)
      → get_elem? r.threads i ≡ t
      → IsSound env ranked w r
      → Leads (IsSound env ranked w) (move_give_up i t r)
  unfolding move_give_up
  give_up-Leads i none r at h = tt
  give_up-Leads i (some (confirming s key)) r at h = tt
  give_up-Leads i (some (confirmed c)) r at h =
      Leads-if (IsSound env ranked w) r.canceled _ (λ over.
        thread-IsSound env ranked w r h i (confirmed c) (dropped c) at refl (h.canceled_sent over))
  give_up-Leads i (some (sent c)) r at h = tt
  give_up-Leads i (some (won c)) r at h = tt
  give_up-Leads i (some (dropped c)) r at h = tt
  give_up-Leads i (some (refused e)) r at h = tt

  step-Leads :
      (m : RaceMove) (r : Race)
      → IsSound env ranked w r
      → Leads (IsSound env ranked w) (race_step env m r)
  unfolding race_step
  step-Leads loop_move r h = loop_move-Leads r.loop r refl h
  step-Leads (thread_move i) r h = thread_move-Leads i _ r refl h
  step-Leads (give_up i) r h = give_up-Leads i _ r refl h

  play-Leads :
      (moves : List RaceMove) (r : Race)
      → IsSound env ranked w r
      → Leads (IsSound env ranked w) (play env moves r)
  unfolding play
  play-Leads [] r h = h
  play-Leads (m ∷ moves) r h =
      then_play-Leads (IsSound env ranked w) (play env moves) (play-Leads moves) (race_step env m r)
        (step-Leads m r h)

-- However the loop and the goroutines of a race interleave, the snipe, the store and the events are
-- as at its start; no more goroutines run than there are slots, so the channel has room for every
-- result; each confirmation in the channel is ConfirmSlot's answer for a slot that PrepareSlot made
-- of a ranked one; and raceCtx is canceled, and a confirmation dropped, only when another was sent.
pub play-IsSound :
    (env : Env) (ranked : List Slot) (w : World) (moves : List RaceMove) (r : Race)
    → play env moves (start_race ranked w) ≡ some r
    → IsSound env ranked w r
play-IsSound env ranked w moves r e =
    subst (Leads (IsSound env ranked w)) e
      (play-Leads env ranked w moves (start_race ranked w) (start_race-IsSound env ranked w))

-- The goroutine ended with an error that ConfirmSlot answered for a slot that PrepareSlot made of a
-- ranked one.
abbrev pub IsRefused : Env → List Slot → Thread → Type 0
IsRefused env ranked t = (e : ProviderError) × (t ≡ refused e) × IsRefusal env ranked e

All-IsRefused :
    (env : Env) (ranked : List Slot) (ts : List Thread)
    → sends ts ≡ 0
    → all_exited ts ≡ true
    → All (IsJustified env ranked 0) ts
    → All (IsRefused env ranked) ts
All-IsRefused env ranked [] n x h = tt
All-IsRefused env ranked (confirming s key ∷ ts) n x h = absurd (false≢true x)
All-IsRefused env ranked (confirmed c ∷ ts) n x h = absurd (false≢true x)
All-IsRefused env ranked (sent c ∷ ts) n x h = absurd (false≢true x)
All-IsRefused env ranked (won c ∷ ts) n x h = absurd (omega (arith, n))
All-IsRefused env ranked (dropped c ∷ ts) n x h = absurd (omega (arith, h.0))
All-IsRefused env ranked (refused e ∷ ts) n x h =
    ((e, refl, h.0), All-IsRefused env ranked ts (omega (arith, n)) x h.1)

-- The race gives up with the channel empty, after its goroutines have ended, only when each of them
-- ended with an error that ConfirmSlot answered for a slot that PrepareSlot made of a ranked one:
-- no confirmation is lost.
pub play-IsRefused :
    (env : Env) (ranked : List Slot) (w : World) (moves : List RaceMove) (r : Race)
    → play env moves (start_race ranked w) ≡ some r
    → all_exited r.threads ≡ true
    → r.results ≡ []
    → All (IsRefused env ranked) r.threads
play-IsRefused env ranked w moves r e exited empty =
    let h = play-IsSound env ranked w moves r e in
    All-IsRefused env ranked r.threads (h.counted ∙ ap length empty) exited (
      subst (λ (cs : List Confirmation). All (IsJustified env ranked (length cs)) r.threads) empty
        h.justified)
