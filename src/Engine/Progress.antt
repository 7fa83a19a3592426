-- ===== src/Engine/Progress.antt =====
-- What every call of internal/engine keeps of the world that it began with.
use resy_snipe.Store.Snipes.{find_row, Db}
use resy_snipe.Prelude.Results.{ok, err}
use resy_snipe.Engine.Transition.{transition_to_scheduled, transition_to}
use resy_snipe.Domain.Status.Graph.{Moves, stay, move}
use resy_snipe.Domain.Snipe.{SnipeState, Event, EventType, Attr}
use resy_snipe.Domain.Status.{Status}
use resy_snipe.Engine.Transition.Atomic.{
  IsSynced, Gated, transition_to_scheduled-Gated, IsSynced-IsStored, transition_to-Gated,
}
use resy_snipe.Domain.Dates.{Time}
use resy_snipe.Prelude.{ℕ, ◌≡◌, arith, List, String, inl, ◌≢◌, inr, ap, refl, ◌∙◌}
use resy_snipe.Engine.World.{Env, World, called, tick, wait_with_ctx, Outcome, and_then}

-- From `w0` to `w` the snipe in memory went by legal moves of the table, and stayed the one that the
-- store has; its identity, and the rows of the other snipes, are as they were.
pub record Progress (w0 w : World) : Type 0 where
  pub synced : IsSynced w
  pub moves : Moves w0.live.status w.live.status
  pub same_id : w.live.id ≡ w0.live.id
  pub same_intent : w.live.intent ≡ w0.live.intent
  pub others : (id : String) → id ≢ w0.live.id → find_row id w.db.snipes ≡ find_row id w0.db.snipes

pub Progress-refl : (w : World) → IsSynced w → Progress w w
Progress-refl w h = record {
  synced = h;
  moves = stay;
  same_id = refl;
  same_intent = refl;
  others = λ id ne. refl;
}

-- Progress reads the snipe in memory and the rows, and nothing else of the world.
pub Progress-same :
    (w0 w w' : World)
    → w'.live ≡ w.live
    → w'.db.snipes ≡ w.db.snipes
    → Progress w0 w
    → Progress w0 w'
Progress-same w0 w w' same_live same_rows p = record {
  synced = rw (same_live, same_rows) p.synced;
  moves = rw same_live p.moves;
  same_id = rw same_live p.same_id;
  same_intent = rw same_live p.same_intent;
  others = λ id ne. rw same_rows (p.others id ne);
}

Gated-Progress :
    (env : Env) (candidate : SnipeState) (ev : Event) (w0 w : World) (o : Outcome)
    → candidate.id ≡ w.live.id
    → candidate.intent ≡ w.live.intent
    → Gated env candidate ev w o
    → Progress w0 w
    → Progress w0 o.1
Gated-Progress env candidate ev w0 w o i n (inl (illegal, e, same)) p = rw same p
Gated-Progress env candidate ev w0 w o i n (inr (inl (legal, f, e, u))) p =
    Progress-same w0 w o.1 u.same_live (ap (λ (d : Db). d.snipes) u.same_db) p
Gated-Progress env candidate ev w0 w o i n (inr (inr (legal, f, e, c))) p = record {
  synced = c.synced;
  moves = move p.moves (rw c.live_is legal);
  same_id = rw c.live_is (i ∙ p.same_id);
  same_intent = rw c.live_is (n ∙ p.same_intent);
  others = λ id ne. c.others id (λ e'. ne (e' ∙ i ∙ p.same_id)) ∙ p.others id ne;
}

pub transition_to-Progress :
    (env : Env) (to : Status) (kind : EventType) (attrs : List Attr) (w0 w : World)
    → Progress w0 w
    → Progress w0 (transition_to env to kind attrs w).1
transition_to-Progress env to kind attrs w0 w p =
    Gated-Progress env _ _ w0 w _ refl refl
      (transition_to-Gated env to kind attrs w (IsSynced-IsStored w p.synced)) p

pub transition_to_scheduled-Progress :
    (env : Env) (at : Time) (w0 w : World)
    → Progress w0 w
    → Progress w0 (transition_to_scheduled env at w).1
transition_to_scheduled-Progress env at w0 w p =
    Gated-Progress env _ _ w0 w _ refl refl
      (transition_to_scheduled-Gated env at w (IsSynced-IsStored w p.synced)) p

pub tick-Progress : (env : Env) (w0 w : World) → Progress w0 w → Progress w0 (tick env w)
unfolding tick
tick-Progress env w0 w p = Progress-same w0 w _ refl refl p

pub called-Progress : (env : Env) (w0 w : World) → Progress w0 w → Progress w0 (called env w)
unfolding called
called-Progress env w0 w p = Progress-same w0 w _ refl refl p

pub and_then-Progress :
    (w0 : World) (o : Outcome) (f : World → Outcome)
    → ((w : World) → Progress w0 w → Progress w0 (f w).1)
    → Progress w0 o.1
    → Progress w0 (and_then o f).1
and_then-Progress w0 (ok done, w) f keep p = keep w p
and_then-Progress w0 (err e, w) f keep p = p

pub wait_with_ctx-Progress :
    (env : Env) (d : ℕ) (w0 w : World) → Progress w0 w → Progress w0 (wait_with_ctx env d w).1
unfolding wait_with_ctx
wait_with_ctx-Progress env d w0 w p = Progress-same w0 w _ (ground arith) (ground arith) p
