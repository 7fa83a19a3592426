-- ===== src/Engine/Race/Sound.antt =====
-- What holds of a booking race of internal/engine/race.go however its goroutines interleave.
use resy_snipe.Engine.Race.Threads.{
  All-get, has_sent, sends, length-set_thread, sends-get, sends-set_thread, All-set_thread,
  All-weaken,
}
use resy_snipe.Prelude.Results.{Result, ok, err}
use mathlib.Core.Bool.{false≢true}
use mathlib.Core.List.{Mem, mem-cons_of_mem, mem-cons_self}
use resy_snipe.Providers.{Slot, Confirmation, ProviderError}
use resy_snipe.Engine.Race.{
  Loop, head, Race, Thread, pause, start_race, confirming, on_confirm, blocked, confirmed, left,
  sent, set_thread, won, dropped, refused,
}
use resy_snipe.Engine.World.{Env, World}
use resy_snipe.Prelude.{
  List, All, ℕ, String, [], arith, get_elem?, length, ◌∷◌, ◌≡◌, some, ◌++◌, ◌+◌, ◌≤◌, ◌∙◌, true,
  ◌<◌, length-append, refl, All-append,
}

-- The slot is PrepareSlot's answer for one of the ranked slots.
pub record IsPrepared (env : Env) (ranked : List Slot) (s : Slot) : Type 0 where
  pub offered : Slot
  pub step : ℕ
  pub is_ranked : Mem offered ranked
  pub answer : env.prepare step offered ≡ ok s

-- The confirmation is ConfirmSlot's answer for a prepared slot.
pub record IsBookable (env : Env) (ranked : List Slot) (c : Confirmation) : Type 0 where
  pub slot : Slot
  pub key : String
  pub number : ℕ
  pub prepared : IsPrepared env ranked slot
  pub answer : env.confirm number slot key ≡ ok c

-- The error is ConfirmSlot's answer for a prepared slot.
pub record IsRefusal (env : Env) (ranked : List Slot) (e : ProviderError) : Type 0 where
  pub slot : Slot
  pub key : String
  pub number : ℕ
  pub prepared : IsPrepared env ranked slot
  pub answer : env.confirm number slot key ≡ err e

abbrev pub IsJustified : Env → List Slot → ℕ → Thread → Type 0
IsJustified env ranked sent_count (confirming s key) = IsPrepared env ranked s
IsJustified env ranked sent_count (confirmed c) = IsBookable env ranked c
IsJustified env ranked sent_count (sent c) = IsBookable env ranked c
IsJustified env ranked sent_count (won c) = IsBookable env ranked c
IsJustified env ranked sent_count (dropped c) = 0 < sent_count
IsJustified env ranked sent_count (refused e) = IsRefusal env ranked e

-- The slots that the loop still has before it.
abbrev pub slots_left : Loop → List Slot
slots_left (head i rest) = rest
slots_left (pause i rest) = rest
slots_left left = []
slots_left (blocked e) = []

pub record IsSound (env : Env) (ranked : List Slot) (w : World) (r : Race) : Type 0 where
  pub same_live : r.world.live ≡ w.live
  pub same_db : r.world.db ≡ w.db
  pub same_sent : r.world.sent ≡ w.sent
  pub remaining : All (λ s. Mem s ranked) (slots_left r.loop)
  pub room : length r.threads + length (slots_left r.loop) ≤ length ranked
  pub counted : sends r.threads ≡ length r.results
  pub canceled_sent : r.canceled ≡ true → 0 < length r.results
  pub justified : All (IsJustified env ranked (length r.results)) r.threads
  pub bookable : All (IsBookable env ranked) r.results

-- Being ranked is inherited by a longer list.
All-weaken_cons :
    (ranked rest : List Slot) (s : Slot)
    → All (λ u. Mem u ranked) rest
    → All (λ u. Mem u (s ∷ ranked)) rest
All-weaken_cons ranked [] s h = tt
All-weaken_cons ranked (t ∷ rest) s h = (mem-cons_of_mem _ h.0, All-weaken_cons ranked rest s h.1)

All-ranked : (ranked : List Slot) → All (λ u. Mem u ranked) ranked
All-ranked [] = tt
All-ranked (s ∷ rest) = (mem-cons_self, All-weaken_cons rest rest s (All-ranked rest))

pub start_race-IsSound :
    (env : Env) (ranked : List Slot) (w : World) → IsSound env ranked w (start_race ranked w)
start_race-IsSound env ranked w = record {
  same_live = refl;
  same_db = refl;
  same_sent = refl;
  remaining = All-ranked ranked;
  room = omega arith;
  counted = refl;
  canceled_sent = λ e. absurd (false≢true e);
  justified = tt;
  bookable = tt;
}

later-IsJustified :
    (env : Env) (ranked : List Slot) (results : List Confirmation) (c : Confirmation) (t : Thread)
    → IsJustified env ranked (length results) t
    → IsJustified env ranked (length (results ++ c ∷ [])) t
later-IsJustified env ranked results c (confirming s key) j = j
later-IsJustified env ranked results c (confirmed d) j = j
later-IsJustified env ranked results c (sent d) j = j
later-IsJustified env ranked results c (won d) j = j
later-IsJustified env ranked results c (dropped d) j = omega (arith, length-append results (c ∷ []))
later-IsJustified env ranked results c (refused e) j = j

module _ (env : Env) (ranked : List Slot) (w : World) (r : Race) (h : IsSound env ranked w r) where
  -- The loop moves on, and nothing else that soundness reads.
  pub loop-IsSound :
      (l : Loop) (v : World)
      → v.live ≡ r.world.live
      → v.db ≡ r.world.db
      → v.sent ≡ r.world.sent
      → All (λ s. Mem s ranked) (slots_left l)
      → length (slots_left l) ≤ length (slots_left r.loop)
      → IsSound env ranked w (record r { world = v; loop = l })
  loop-IsSound l v a b c members fewer = record {
    same_live = a ∙ h.same_live;
    same_db = b ∙ h.same_db;
    same_sent = c ∙ h.same_sent;
    remaining = members;
    room = omega (arith, h.room, fewer);
    counted = h.counted;
    canceled_sent = h.canceled_sent;
    justified = h.justified;
    bookable = h.bookable;
  }

  -- A goroutine that sends nothing takes another state.
  pub thread-IsSound :
      (i : ℕ) (t u : Thread)
      → get_elem? r.threads i ≡ some t
      → has_sent t ≡ has_sent u
      → IsJustified env ranked (length r.results) u
      → IsSound env ranked w (record r { threads = set_thread i u r.threads })
  thread-IsSound i t u at same j = record {
    room = omega (arith, h.room, length-set_thread i u r.threads);
    counted = omega (arith, h.counted, same, sends-set_thread i t u r.threads at);
    justified =
        All-set_thread (IsJustified env ranked (length r.results)) i u r.threads j h.justified;
    same_live = h.same_live;
    same_db = h.same_db;
    same_sent = h.same_sent;
    remaining = h.remaining;
    canceled_sent = h.canceled_sent;
    bookable = h.bookable;
  }

  pub IsJustified-at :
      (i : ℕ) (t : Thread)
      → get_elem? r.threads i ≡ some t
      → IsJustified env ranked (length r.results) t
  IsJustified-at i t at =
      All-get (IsJustified env ranked (length r.results)) i t r.threads at h.justified

  -- The moves of a goroutine.
  pub on_confirm-IsSound :
      (i : ℕ) (s : Slot) (key : String) (a : Result ProviderError Confirmation)
      → get_elem? r.threads i ≡ some (confirming s key)
      → env.confirm i s key ≡ a
      → IsSound env ranked w (on_confirm i a r)
  unfolding on_confirm
  on_confirm-IsSound i s key (ok c) at answer = thread-IsSound i _ (confirmed c) at refl (record {
    slot = s;
    key = key;
    number = i;
    prepared = IsJustified-at i _ at;
    answer = answer;
  })
  on_confirm-IsSound i s key (err e) at answer = thread-IsSound i _ (refused e) at refl (record {
    slot = s;
    key = key;
    number = i;
    prepared = IsJustified-at i _ at;
    answer = answer;
  })

  pub send-IsSound :
      (i : ℕ) (c : Confirmation)
      → get_elem? r.threads i ≡ some (confirmed c)
      → IsSound env ranked w
          (record r { threads = set_thread i (sent c) r.threads; results = r.results ++ c ∷ [] })
  send-IsSound i c at = record {
    room = omega (arith, h.room, length-set_thread i (sent c) r.threads);
    counted = omega (
      arith,
      h.counted,
      sends-set_thread i (confirmed c) (sent c) r.threads at,
      length-append r.results (c ∷ []),
    );
    canceled_sent = λ e. omega (arith, length-append r.results (c ∷ []));
    justified =
        All-set_thread (IsJustified env ranked (length (r.results ++ c ∷ []))) i (sent c) r.threads
          (IsJustified-at i _ at)
          (All-weaken (IsJustified env ranked (length r.results)) _
            (later-IsJustified env ranked r.results c) r.threads h.justified);
    bookable = All-append _ r.results (c ∷ []) h.bookable (IsJustified-at i _ at, tt);
    same_live = h.same_live;
    same_db = h.same_db;
    same_sent = h.same_sent;
    remaining = h.remaining;
  }

  pub cancel-IsSound :
      (i : ℕ) (c : Confirmation)
      → get_elem? r.threads i ≡ some (sent c)
      → IsSound env ranked w
          (record r { threads = set_thread i (won c) r.threads; canceled = true })
  cancel-IsSound i c at =
      let t = thread-IsSound i (sent c) (won c) at refl (IsJustified-at i _ at) in
      record {
        canceled_sent = λ e. omega (arith, h.counted, sends-get i (sent c) r.threads at);
        same_live = t.same_live;
        same_db = t.same_db;
        same_sent = t.same_sent;
        remaining = t.remaining;
        room = t.room;
        counted = t.counted;
        justified = t.justified;
        bookable = t.bookable;
      }
