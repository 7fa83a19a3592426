-- ===== src/Engine/Race/Threads.antt =====
-- The list of the goroutines of a race, one of which moves.
use resy_snipe.Prelude.{
  ℕ, zero, suc, ◌≡◌, refl, List, [], ◌∷◌, ◌++◌, some, length, get_elem?, All, ◌+◌, arith, ap, sym,
  subst, ◌≤◌,
}
use mathlib.Core.Option.{some_inj, some-ne-none}
use resy_snipe.Engine.Race.{Thread, confirming, confirmed, sent, won, dropped, refused, set_thread}

pub length-set_thread :
    (i : ℕ) (t : Thread) (ts : List Thread) → length (set_thread i t ts) ≡ length ts
length-set_thread i t [] = refl
length-set_thread zero t (u ∷ us) = refl
length-set_thread (suc i) t (u ∷ us) = ap suc (length-set_thread i t us)

-- Whether the goroutine has sent its confirmation.
abbrev pub has_sent : Thread → ℕ
has_sent (confirming s key) = 0
has_sent (confirmed c) = 0
has_sent (sent c) = 1
has_sent (won c) = 1
has_sent (dropped c) = 0
has_sent (refused e) = 0

abbrev pub sends : List Thread → ℕ
sends [] = 0
sends (t ∷ ts) = has_sent t + sends ts

pub sends-append : (ts us : List Thread) → sends (ts ++ us) ≡ sends ts + sends us
sends-append [] us = omega arith
sends-append (t ∷ ts) us = omega (arith, sends-append ts us)

pub sends-set_thread :
    (i : ℕ) (t u : Thread) (ts : List Thread)
    → get_elem? ts i ≡ some t
    → sends (set_thread i u ts) + has_sent t ≡ sends ts + has_sent u
sends-set_thread i t u [] h = absurd (some-ne-none _ (sym h))
sends-set_thread zero t u (v ∷ vs) h = rw (some_inj.0 h) (omega arith)
sends-set_thread (suc i) t u (v ∷ vs) h = omega (arith, sends-set_thread i t u vs h)

pub sends-get :
    (i : ℕ) (t : Thread) (ts : List Thread) → get_elem? ts i ≡ some t → has_sent t ≤ sends ts
sends-get i t [] h = absurd (some-ne-none _ (sym h))
sends-get zero t (u ∷ us) h = rw (some_inj.0 h) (omega arith)
sends-get (suc i) t (u ∷ us) h = omega (arith, sends-get i t us h)

one_at_most : (t : Thread) → has_sent t ≤ 1
one_at_most t = ground arith

pub sends-le : (ts : List Thread) → sends ts ≤ length ts
sends-le [] = omega arith
sends-le (t ∷ ts) = omega (arith, sends-le ts, one_at_most t)

module _ (P : Thread → Type 0) where
  pub All-set_thread :
      (i : ℕ) (u : Thread) (ts : List Thread) → P u → All P ts → All P (set_thread i u ts)
  All-set_thread i u [] p h = tt
  All-set_thread zero u (v ∷ vs) p h = (p, h.1)
  All-set_thread (suc i) u (v ∷ vs) p h = (h.0, All-set_thread i u vs p h.1)

  pub All-get : (i : ℕ) (t : Thread) (ts : List Thread) → get_elem? ts i ≡ some t → All P ts → P t
  All-get i t [] e h = absurd (some-ne-none _ (sym e))
  All-get zero t (v ∷ vs) e h = subst P (some_inj.0 e) h.0
  All-get (suc i) t (v ∷ vs) e h = All-get i t vs e h.1

  pub All-weaken :
      (Q : Thread → Type 0) → ((t : Thread) → P t → Q t) → (ts : List Thread) → All P ts → All Q ts
  All-weaken Q f [] h = tt
  All-weaken Q f (t ∷ ts) h = (f t h.0, All-weaken Q f ts h.1)
