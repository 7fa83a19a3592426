-- ===== src/Engine/Race/Moves.antt =====
-- A move of the loop of a booking race of internal/engine/race.go keeps the race sound.
use resy_snipe.Engine.Race.Threads.{sends-append}
use resy_snipe.Prelude.Results.{err, ok, Result}
use mathlib.Core.List.{Mem}
use resy_snipe.Engine.Race.Sound.{IsSound, loop-IsSound, slots_left, IsPrepared}
use resy_snipe.Providers.{Slot, ProviderError}
use resy_snipe.Prelude.{
  List, Option, ◌≡◌, some, ℕ, arith, none, All, length, suc, ◌≤◌, All-append, Bool-cases, ◌∷◌, [],
  inl, inr, length-append, ap, refl, Bool, true, if◌then◌else◌, false,
}
use resy_snipe.Engine.Race.{
  Race, on_paused, on_prepared, left, head, blocks, blocked, after_launch, then_play,
}
use resy_snipe.Engine.World.{Env, World, wait_with_ctx, tick, called, Outcome}

-- A move that is possible leads to a state with the property.
abbrev pub Leads : (Race → Type 0) → Option Race → Type 0
Leads P none = Unit
Leads P (some r) = P r

pub Leads-if :
    (P : Race → Type 0) (b : Bool) (r : Race)
    → (b ≡ true → P r)
    → Leads P (if b then some r else none)
Leads-if P true r f = f refl
Leads-if P false r f = tt

pub then_play-Leads :
    (P : Race → Type 0) (f : Race → Option Race)
    → ((r : Race) → P r → Leads P (f r))
    → (o : Option Race) → Leads P o
    → Leads P (then_play o f)
then_play-Leads P f keep none h = tt
then_play-Leads P f keep (some r) h = keep r h

pub record IsQuiet (v w : World) : Type 0 where
  pub same_live : v.live ≡ w.live
  pub same_db : v.db ≡ w.db
  pub same_sent : v.sent ≡ w.sent

pub wait-IsQuiet : (env : Env) (d : ℕ) (w : World) → IsQuiet (wait_with_ctx env d w).1 w
unfolding wait_with_ctx tick
wait-IsQuiet env d w = record {
  same_live = ground arith;
  same_db = ground arith;
  same_sent = ground arith;
}

pub after_launch-slots : (i : ℕ) (rest : List Slot) → slots_left (after_launch i rest) ≡ rest
after_launch-slots i [] = refl
after_launch-slots i (s ∷ rest) = refl

module _ (env : Env) (ranked : List Slot) (w : World) where
  pub leave-IsSound :
      (r : Race) → IsSound env ranked w r → IsSound env ranked w (record r { loop = left })
  leave-IsSound r h = loop-IsSound env ranked w r h left r.world refl refl refl tt (omega arith)

  pub prepared-IsSound :
      (i : ℕ) (s : Slot) (rest : List Slot) (r : Race)
      → IsSound env ranked w r
      → All (λ u. Mem u ranked) rest
      → suc (length rest) ≤ length (slots_left r.loop)
      → IsPrepared env ranked s
      → IsSound env ranked w (on_prepared env i rest (ok s) r)
  unfolding on_prepared
  prepared-IsSound i s rest r h members fewer p = record {
    same_live = h.same_live;
    same_db = h.same_db;
    same_sent = h.same_sent;
    remaining = rw (after_launch-slots (suc i) rest) members;
    room = omega (
      arith,
      h.room,
      fewer,
      length-append r.threads (_ ∷ []),
      ap length (after_launch-slots (suc i) rest),
    );
    counted = omega (arith, h.counted, sends-append r.threads (_ ∷ []));
    canceled_sent = h.canceled_sent;
    justified = All-append _ r.threads (_ ∷ []) h.justified (p, tt);
    bookable = h.bookable;
  }

  pub refused-IsSound :
      (i : ℕ) (e : ProviderError) (rest : List Slot) (r : Race)
      → IsSound env ranked w r
      → All (λ u. Mem u ranked) rest
      → suc (length rest) ≤ length (slots_left r.loop)
      → IsSound env ranked w (on_prepared env i rest (err e) r)
  unfolding on_prepared
  refused-IsSound i e rest r h members fewer = elim (Bool-cases (blocks e)) [
    | inl b ↦
        rw b (loop-IsSound env ranked w r h (blocked e) r.world refl refl refl tt (omega arith))
    | inr b ↦ rw b (
        loop-IsSound env ranked w r h (head (suc i) rest) r.world refl refl refl members
          (omega (arith, fewer)))
  ]

  pub asked-IsSound :
      (i : ℕ) (s : Slot) (rest : List Slot) (a : Result ProviderError Slot) (r : Race)
      → IsSound env ranked w r
      → All (λ u. Mem u ranked) (s ∷ rest)
      → length (slots_left r.loop) ≡ suc (length rest)
      → (n : ℕ) → env.prepare n s ≡ a
      → IsSound env ranked w (on_prepared env i rest a r)
  asked-IsSound i s rest (err e) r h members fewer n answer =
      refused-IsSound i e rest r h members.1 (omega (arith, fewer))
  asked-IsSound i s rest (ok p) r h members fewer n answer =
      prepared-IsSound i p rest r h members.1 (omega (arith, fewer))
        (record { offered = s; step = n; is_ranked = members.0; answer = answer })

  pub paused-IsSound :
      (i : ℕ) (rest : List Slot) (o : Outcome) (r : Race)
      → IsSound env ranked w r
      → All (λ u. Mem u ranked) rest
      → length rest ≤ length (slots_left r.loop)
      → IsQuiet o.1 r.world
      → IsSound env ranked w (on_paused i rest o r)
  unfolding on_paused
  paused-IsSound i rest (ok done, v) r h members fewer q =
      loop-IsSound env ranked w r h (head i rest) v q.same_live q.same_db q.same_sent members fewer
  paused-IsSound i rest (err e, v) r h members fewer q =
      loop-IsSound env ranked w r h left v q.same_live q.same_db q.same_sent tt (omega arith)

  pub called-IsSound :
      (r : Race)
      → IsSound env ranked w r
      → IsSound env ranked w (record r { world = called env r.world })
  unfolding called tick
  called-IsSound r h =
      loop-IsSound env ranked w r h r.loop _ refl refl refl h.remaining (omega arith)

  pub ticked-IsSound :
      (r : Race)
      → IsSound env ranked w r
      → IsSound env ranked w (record r { world = tick env r.world })
  unfolding tick
  ticked-IsSound r h =
      loop-IsSound env ranked w r h r.loop _ refl refl refl h.remaining (omega arith)
