-- ===== src/Engine/Transition/Submit.antt =====
-- What Submit of internal/engine/engine.go leaves behind: its row and its first event are two
-- statements, not one transaction.
use resy_snipe.Domain.Status.{submitted}
use resy_snipe.Prelude.Results.{err, ok}
use resy_snipe.Engine.Transition.Atomic.{IsUnchanged}
use resy_snipe.Domain.Intent.{Intent, venue_text}
use resy_snipe.Prelude.{
  String, List, ◌≡◌, none, some, ◌≢◌, false, true, ◌++◌, ◌∷◌, [], Bool-cases, arith, suc, inl,
  str_eq_iff, inr, refl,
}
use resy_snipe.Engine.World.{Env, World, tick, Outcome, store_failure, store_refused}
use resy_snipe.Store.Snipes.{find_row, row_of, SnipeRow, append_event, create_snipe, already_exists}
use resy_snipe.Engine.Transition.{submit, submit_event}
use resy_snipe.Domain.Snipe.{
  SnipeState, new_snipe_state, Event, submitted_event, snipe_id, intent_hash, venue_ref,
}

find_row-created :
    (r : SnipeRow) (rows : List SnipeRow)
    → find_row r.id rows ≡ none
    → find_row r.id (rows ++ r ∷ []) ≡ some r
unfolding find_row
find_row-created r [] h = ground (arith, str_eq_iff r.id r.id)
find_row-created r (x ∷ rows) h = ground (arith, find_row-created r rows)

find_row-others :
    (id : String) (r : SnipeRow) (rows : List SnipeRow)
    → id ≢ r.id
    → find_row id (rows ++ r ∷ []) ≡ find_row id rows
unfolding find_row
find_row-others id r [] ne = ground (arith, str_eq_iff r.id id)
find_row-others id r (x ∷ rows) ne = ground (arith, find_row-others id r rows ne)

-- The row of the new snipe is there, and the other rows stand.
pub record IsCreated (s : SnipeState) (w w' : World) : Type 0 where
  pub stored : find_row s.id w'.db.snipes ≡ some (row_of s)
  pub others : (id : String) → id ≢ s.id → find_row id w'.db.snipes ≡ find_row id w.db.snipes

-- The event that Submit writes.
abbrev pub first_event : Env → String → Intent → World → Event
first_event env id intent w = record {
  kind = submitted_event;
  at = w.now;
  attrs =
      snipe_id id ∷ intent_hash (env.intent_hash intent) ∷ venue_ref (venue_text intent.venue) ∷ [];
}

-- The three ends of a Submit under a new id.
pub data Submits (env : Env) (id : String) (intent : Intent) (w : World) : Outcome → Type 0 where
  not_written :
      {w' : World}
      → env.store_fails w.step ≡ true
      → IsUnchanged w w'
      → Submits env id intent w (err store_failure, w')
  row_only :
      {w' : World}
      → env.store_fails w.step ≡ false
      → env.store_fails (suc w.step) ≡ true
      → IsCreated (new_snipe_state id intent w.now) w w'
      → w'.db.events ≡ w.db.events
      → w'.live ≡ w.live
      → w'.sent ≡ w.sent
      → Submits env id intent w (err store_failure, w')
  submitted_whole :
      {w' : World}
      → env.store_fails w.step ≡ false
      → env.store_fails (suc w.step) ≡ false
      → IsCreated (new_snipe_state id intent w.now) w w'
      → w'.db.events ≡ w.db.events ++ (id, first_event env id intent w) ∷ []
      → w'.live ≡ new_snipe_state id intent w.now
      → w'.sent
        ≡ w.sent
          ++ record {
            snipe_id = id;
            from = none;
            to = submitted;
            event = first_event env id intent w;
          }
            ∷ []
      → Submits env id intent w (ok tt, w')

created :
    (id : String) (intent : Intent) (w w' : World)
    → find_row id w.db.snipes ≡ none
    → w'.db.snipes ≡ w.db.snipes ++ row_of (new_snipe_state id intent w.now) ∷ []
    → IsCreated (new_snipe_state id intent w.now) w w'
unfolding row_of new_snipe_state
created id intent w w' absent rows = record {
  stored = rw rows (find_row-created (row_of (new_snipe_state id intent w.now)) w.db.snipes absent);
  others = λ other ne.
      rw rows (find_row-others other (row_of (new_snipe_state id intent w.now)) w.db.snipes ne);
}

-- The second statement.
event_cases :
    (env : Env) (id : String) (intent : Intent) (w : World)
    → find_row id w.db.snipes ≡ none
    → env.store_fails w.step ≡ false
    → Submits env id intent w (
        submit_event env
          (new_snipe_state id intent w.now)
          (first_event env id intent w)
          (record (tick env w) {
            db = record w.db {
              snipes = w.db.snipes ++ row_of (new_snipe_state id intent w.now) ∷ [];
            };
          }))
unfolding submit_event append_event tick row_of new_snipe_state
event_cases env id intent w absent works = elim (Bool-cases (env.store_fails (suc w.step))) [
  | inl f ↦ simp f (row_only works f (created id intent w _ absent refl) refl refl refl)
  | inr g ↦
      simp (g, find_row-created (row_of (new_snipe_state id intent w.now)) w.db.snipes absent)
        (submitted_whole works g (created id intent w _ absent refl) refl refl refl)
]

-- Submit under an id that is not stored ends in one of three ways, by which of its two statements
-- fails: nothing is written; or the row is there, without its event, and the caller gets an error;
-- or the row, the event and the notification without a previous status are there and the snipe is in
-- memory. Under an id that is
-- stored a Submit that the store answers is refused and changes nothing.
pub submit_cases :
    (env : Env) (id : String) (intent : Intent) (w : World)
    → (find_row id w.db.snipes ≡ none → Submits env id intent w (submit env id intent w))
      × ((r : SnipeRow)
          → find_row id w.db.snipes ≡ some r
          → env.store_fails w.step ≡ false
          → ((submit env id intent w).0 ≡ err (store_refused already_exists))
            × IsUnchanged w (submit env id intent w).1)
unfolding submit create_snipe tick new_snipe_state
submit_cases env id intent w = (
  λ absent. elim (Bool-cases (env.store_fails w.step)) [
    | inl f ↦ simp f (not_written f (record { same_live = refl; same_db = refl; same_sent = refl }))
    | inr g ↦ simp (g, absent) (event_cases env id intent w absent g)
  ],
  λ r there works. (
    simp (works, there) refl,
    simp (works, there) (record { same_live = refl; same_db = refl; same_sent = refl }),
  ),
)
