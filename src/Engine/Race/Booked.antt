-- ===== src/Engine/Race/Booked.antt =====
-- RunBookingRace of internal/engine/race.go returns without an error only when the snipe is booked.
use resy_snipe.Engine.Race.Rank.Order.{mem-rank_slots}
use resy_snipe.Engine.Race.Rank.{rank_slots, slot_pref_times}
use resy_snipe.Domain.Intent.{Intent, SlotPreference}
use resy_snipe.Engine.Race.Interleavings.{play-IsSound}
use mathlib.Core.Option.{some-ne-none, some_inj}
use resy_snipe.Engine.Race.Sound.{IsBookable, IsSound}
use resy_snipe.Engine.Transition.{transition_to}
use resy_snipe.Engine.Race.{
  and_race, with_reason, Race, book_winner, find_and_race, on_found, race_from, run_booking_race,
  settle, RaceMove, fail_with_reason, Loop, blocked, play, all_exited, start_race, enter_booking,
  enter_finding, on_winner, head, pause, left,
}
use resy_snipe.Engine.Transition.Atomic.{
  IsStored, IsSynced, IsSynced-IsStored, transition_to-IsCommitted,
}
use resy_snipe.Domain.Status.{Status, booked, booking, finding}
use resy_snipe.Prelude.{
  Option, String, some, ◌≡◌, List, refl, inl, ap, sym, Bool-cases, Option-cases, ◌∙◌, inr, ◌∷◌, [],
  All, subst, ℕ,
}
use resy_snipe.Engine.World.{
  Env, EngineError, Outcome, World, called, tick, missing_provider, no_preparer,
}
use resy_snipe.Prelude.Results.{Result, ok, err, err≢ok}
use resy_snipe.Domain.Snipe.{SnipeState, Receipt, EventType, Attr}
use resy_snipe.Providers.{Confirmation, Slot, ProviderError}

abbrev done : Result EngineError (Unit {0})
done = ok tt

abbrev pub receipt_of : Confirmation → Receipt
receipt_of c = record { booked_at = c.booked_at; confirmation_id = c.id }

-- The snipe is booked in memory and in the store, with the receipt of a confirmation of the
-- provider for one of the slots.
pub record IsBookedFrom (env : Env) (slots : List Slot) (w : World) : Type 0 where
  pub status_is : w.live.status ≡ booked
  pub synced : IsSynced w
  pub winner : Confirmation
  pub bookable : IsBookable env slots winner
  pub receipt : w.live.result ≡ some (receipt_of winner)

-- The slots are those that Find returned for the intent.
pub record IsBooked (env : Env) (intent : Intent) (w : World) : Type 0 where
  pub step : ℕ
  pub slots : List Slot
  pub found : env.find step intent (slot_pref_times intent.slot_prefs []) ≡ ok slots
  pub booked_from : IsBookedFrom env slots w

-- What a race returned, read off when it is a success.
abbrev BooksIfOk : (World → Type 0) → Option Outcome → Type 0
BooksIfOk P o = (v : World) → o ≡ some (done, v) → P v

refuses : (P : World → Type 0) (e : EngineError) (w : World) → BooksIfOk P (some (err e, w))
refuses P e w v h = absurd (err≢ok (ap (λ (o : Outcome). o.0) (some_inj.0 h)))

failed_refuses :
    (P : World → Type 0) (why : String) (cause : EngineError) (o : Outcome)
    → BooksIfOk P (some (with_reason why cause o))
failed_refuses P why cause (ok d, w) = refuses P _ w
failed_refuses P why cause (err e, w) = refuses P _ w

and_race-Books :
    (P : World → Type 0) (o : Outcome) (f : World → Option Outcome)
    → (o.0 ≡ done → BooksIfOk P (f o.1))
    → BooksIfOk P (and_race o f)
and_race-Books P (ok d, w) f h = h refl
and_race-Books P (err e, w) f h = refuses P e w

-- A success of the transition and of what follows it; the intent stays.
moved-Books :
    (P : World → Type 0) (env : Env) (to : Status) (kind : EventType) (attrs : List Attr)
    (w : World) (f : World → Option Outcome)
    → IsStored w
    → ((v : World) → IsStored v → v.live.intent ≡ w.live.intent → BooksIfOk P (f v))
    → BooksIfOk P (and_race (transition_to env to kind attrs w) f)
moved-Books P env to kind attrs w f stored h =
    and_race-Books P (transition_to env to kind attrs w) f (λ success.
      let c = transition_to-IsCommitted env to kind attrs w stored success in
      h _ (IsSynced-IsStored _ c.synced) (ap (λ (s : SnipeState). s.intent) c.live_is))

still-IsStored :
    (env : Env) (ranked : List Slot) (w : World) (r : Race)
    → IsStored w
    → IsSound env ranked w r
    → IsStored r.world
still-IsStored env ranked w r stored h = record {
  row = stored.row;
  found = rw (h.same_live, h.same_db) stored.found;
  created = rw h.same_live stored.created;
}

module _ (env : Env) (ranked : List Slot) where
  book_winner-Books :
      (c : Confirmation) (w : World)
      → IsStored w
      → IsBookable env ranked c
      → BooksIfOk (IsBookedFrom env ranked) (some (book_winner env c w))
  unfolding book_winner
  book_winner-Books c w stored b v h =
      let o = some_inj.0 h in
      let receipt = receipt_of c in
      let w1 : World = record w { live = record w.live { result = some receipt } } in
      let committed =
        transition_to-IsCommitted env booked _ _ w1
          (record { row = stored.row; found = stored.found; created = stored.created })
          (ap (λ (p : Outcome). p.0) o) in
      subst (IsBookedFrom env ranked) (ap (λ (p : Outcome). p.1) o) (record {
        status_is = ap (λ (s : SnipeState). s.status) committed.live_is;
        synced = committed.synced;
        winner = c;
        bookable = b;
        receipt = ap (λ (s : SnipeState). s.result) committed.live_is;
      })

  on_winner-Books :
      (cs : List Confirmation) (w : World)
      → IsStored w
      → All (IsBookable env ranked) cs
      → BooksIfOk (IsBookedFrom env ranked) (some (on_winner env cs w))
  unfolding on_winner fail_with_reason
  on_winner-Books [] w stored b = failed_refuses (IsBookedFrom env ranked) _ _ _
  on_winner-Books (c ∷ cs) w stored b = book_winner-Books c w stored b.0

  settle-Books :
      (w : World) (l : Loop) (r : Race)
      → IsStored w
      → IsSound env ranked w r
      → BooksIfOk (IsBookedFrom env ranked) (settle env l r)
  unfolding settle fail_with_reason
  settle-Books w (blocked e) r stored h = failed_refuses (IsBookedFrom env ranked) _ _ _
  settle-Books w left r stored h = elim (Bool-cases (all_exited r.threads)) [
    | inl over ↦
        rw over
          (on_winner-Books r.results r.world (still-IsStored env ranked w r stored h) h.bookable)
    | inr waits ↦ rw waits (λ v e. absurd (some-ne-none _ (sym e)))
  ]
  settle-Books w (head i rest) r stored h = λ v e. absurd (some-ne-none _ (sym e))
  settle-Books w (pause i rest) r stored h = λ v e. absurd (some-ne-none _ (sym e))

  race_from-Books :
      (moves : List RaceMove) (w : World)
      → IsStored w
      → BooksIfOk (IsBookedFrom env ranked) (race_from env moves ranked w)
  unfolding race_from
  race_from-Books moves w stored v e = elim (Option-cases (play env moves (start_race ranked w))) [
    | inl stuck ↦ absurd (some-ne-none _ (sym e ∙ rw stuck refl))
    | inr (r, p) ↦
        settle-Books w r.loop r stored (play-IsSound env ranked w moves r p) v (sym (rw p refl) ∙ e)
  ]

-- What is prepared of one of the ranked slots is prepared of one of those found.
IsBookedFrom-rank_slots :
    (env : Env) (slots : List Slot) (prefs : List SlotPreference) (w : World)
    → IsBookedFrom env (rank_slots slots prefs) w
    → IsBookedFrom env slots w
IsBookedFrom-rank_slots env slots prefs w h =
    let b = h.bookable in
    let p = b.prepared in
    record {
      status_is = h.status_is;
      synced = h.synced;
      winner = h.winner;
      bookable = record {
        slot = b.slot;
        key = b.key;
        number = b.number;
        prepared = record {
          offered = p.offered;
          step = p.step;
          is_ranked = mem-rank_slots p.offered slots prefs p.is_ranked;
          answer = p.answer;
        };
        answer = b.answer;
      };
      receipt = h.receipt;
    }

enter_booking-Books :
    (env : Env) (slots : List Slot) (moves : List RaceMove) (prefs : List SlotPreference)
    (w : World)
    → IsStored w
    → BooksIfOk (IsBookedFrom env slots) (enter_booking env moves (rank_slots slots prefs) w)
unfolding enter_booking
enter_booking-Books env slots moves prefs w stored =
    moved-Books (IsBookedFrom env slots) env booking _ _ w
      (race_from env moves (rank_slots slots prefs)) stored
      (λ v kept same v' e.
        IsBookedFrom-rank_slots env slots prefs v'
          (race_from-Books env (rank_slots slots prefs) moves v kept v' e))

on_found-Books :
    (env : Env) (intent : Intent) (moves : List RaceMove) (a : Result ProviderError (List Slot))
    (n : ℕ) (w : World)
    → env.find n intent (slot_pref_times intent.slot_prefs []) ≡ a
    → IsStored w
    → BooksIfOk (IsBooked env intent) (on_found env moves a w)
unfolding on_found fail_with_reason
on_found-Books env intent moves (err e) n w answer stored =
    failed_refuses (IsBooked env intent) _ _ _
on_found-Books env intent moves (ok []) n w answer stored =
    failed_refuses (IsBooked env intent) _ _ _
on_found-Books env intent moves (ok (s ∷ slots)) n w answer stored = λ v e. record {
  step = n;
  slots = s ∷ slots;
  found = answer;
  booked_from = enter_booking-Books env (s ∷ slots) moves w.live.intent.slot_prefs w stored v e;
}

find_and_race-Books :
    (env : Env) (intent : Intent) (moves : List RaceMove) (w : World)
    → w.live.intent ≡ intent
    → IsStored w
    → BooksIfOk (IsBooked env intent) (find_and_race env moves w)
unfolding find_and_race called tick
find_and_race-Books env intent moves w same stored =
    on_found-Books env intent moves _ w.step _
      (ap (λ (i : Intent). env.find w.step i (slot_pref_times i.slot_prefs [])) (sym same))
      (record { row = stored.row; found = stored.found; created = stored.created })

enter_finding-Books :
    (env : Env) (moves : List RaceMove) (w : World)
    → IsStored w
    → BooksIfOk (IsBooked env w.live.intent) (enter_finding env moves w)
unfolding enter_finding
enter_finding-Books env moves w stored =
    moved-Books (IsBooked env w.live.intent) env finding _ _ w (find_and_race env moves) stored
      (λ v kept same. find_and_race-Books env w.live.intent moves v same kept)

-- RunBookingRace of a stored snipe, with any provider, store, clock, context and interleaving,
-- returns no error only when the snipe is booked, in memory and in its row, and its result is the
-- receipt of a confirmation that ConfirmSlot gave for a slot that PrepareSlot made of one of those
-- that Find returned for the snipe's intent.
pub run_booking_race-IsBooked :
    (env : Env) (moves : List RaceMove) (w w' : World)
    → IsStored w
    → run_booking_race env moves w ≡ some (ok tt, w')
    → IsBooked env w.live.intent w'
unfolding run_booking_race
run_booking_race-IsBooked env moves w w' stored = elim (Bool-cases env.has_provider) [
  | inr absent ↦ simp absent (refuses (IsBooked env w.live.intent) missing_provider w w')
  | inl there ↦ elim (Bool-cases env.is_preparer) [
    | inr plain ↦ simp (there, plain) (refuses (IsBooked env w.live.intent) no_preparer w w')
    | inl prepares ↦ simp (there, prepares) (enter_finding-Books env moves w stored w')
  ]
]
