-- ===== src/Engine/Transition/Atomic.antt =====
-- A status change of internal/engine/state.go happens in memory, in the store and on the event
-- stream together, or not at all.
use resy_snipe.Domain.Intent.{venue_text}
use resy_snipe.Domain.Dates.{Time}
use resy_snipe.Domain.Status.{can_transition, Status, scheduled}
use resy_snipe.Store.Snipes.Tables.{transition_snipe_stored}
use resy_snipe.Prelude.Results.{err, ok, err≢ok}
use resy_snipe.Prelude.{
  ◌≡◌, String, some, refl, true, ◌≢◌, ◌++◌, ◌∷◌, [], ◌⊎◌, false, Bool-cases, inl, inr, ◌∙◌, ap, sym,
  List,
}
use resy_snipe.Engine.World.{World, tick, Env, store_failure, Outcome, invalid_transition}
use resy_snipe.Engine.Transition.{persist, transition_to, event_of, transition_to_scheduled}
use resy_snipe.Store.Snipes.{row_of, SnipeRow, find_row}
use resy_snipe.Domain.Snipe.{
  SnipeState, Event, transition, EventType, Attr, scheduled_event, scheduled_at, venue_ref,
}

-- The snipe in memory has a row.
pub record IsStored (w : World) : Type 0 where
  pub row : SnipeRow
  pub found : find_row w.live.id w.db.snipes ≡ some row
  pub created : row.created_at ≡ w.live.created_at

-- The row of the snipe in memory says what memory says.
abbrev pub IsSynced : World → Type 0
IsSynced w = find_row w.live.id w.db.snipes ≡ some (row_of w.live)

pub IsSynced-IsStored : (w : World) → IsSynced w → IsStored w
unfolding row_of
IsSynced-IsStored w h = record { row = row_of w.live; found = h; created = refl }

-- Memory, store and event stream are as they were; time may have passed.
pub record IsUnchanged (w w' : World) : Type 0 where
  pub same_live : w'.live ≡ w.live
  pub same_db : w'.db ≡ w.db
  pub same_sent : w'.sent ≡ w.sent

-- The candidate is in memory and in the store, with the event appended and the notification sent;
-- the rows of the other snipes stand.
pub record IsCommitted (candidate : SnipeState) (ev : Event) (w w' : World) : Type 0 where
  pub live_is : w'.live ≡ candidate
  pub synced : IsSynced w'
  pub others :
      (id : String) → id ≢ candidate.id → find_row id w'.db.snipes ≡ find_row id w.db.snipes
  pub logged : w'.db.events ≡ w.db.events ++ (candidate.id, ev) ∷ []
  pub notified :
      w'.sent
      ≡ w.sent
        ++ record {
          snipe_id = candidate.id;
          from = some w.live.status;
          to = candidate.status;
          event = ev;
        }
          ∷ []

-- A write of a stored snipe is refused by the store alone, and then nothing changes.
pub persist_cases :
    (env : Env) (candidate : SnipeState) (ev : Event) (w : World)
    → IsStored w
    → candidate.id ≡ w.live.id
    → candidate.created_at ≡ w.live.created_at
    → ((env.store_fails w.step ≡ true)
        × ((persist env candidate ev w).0 ≡ err store_failure)
        × IsUnchanged w (persist env candidate ev w).1)
      ⊎ ((env.store_fails w.step ≡ false)
          × ((persist env candidate ev w).0 ≡ ok tt)
          × IsCommitted candidate ev w (persist env candidate ev w).1)
unfolding persist tick row_of
persist_cases env candidate ev w stored same_id same_created =
    elim (Bool-cases (env.store_fails w.step)) [
      | inl f ↦ inl (f, rw f, rw f (record { same_live = refl; same_db = refl; same_sent = refl }))
      | inr f ↦
          let (db', e, found, others, logged) =
            transition_snipe_stored w.db candidate ev stored.row (rw same_id stored.found) in
          inr (
            f,
            rw (f, e),
            rw (f, e)
                (record {
                  live_is = refl;
                  synced =
                      found
                      ∙ ap (λ (t : Time). some (record (row_of candidate) { created_at = t }))
                          (stored.created ∙ sym same_created);
                  others = others;
                  logged = logged;
                  notified = refl;
                }),
          )
    ]

-- What became of a call that moves the snipe in memory to the candidate.
abbrev pub Gated : Env → SnipeState → Event → World → Outcome → Type 0
Gated env candidate ev w (r, w') =
    ((can_transition w.live.status candidate.status ≡ false)
      × (r ≡ err (invalid_transition w.live.status candidate.status))
      × (w' ≡ w))
    ⊎ ((can_transition w.live.status candidate.status ≡ true)
        × (env.store_fails w.step ≡ true)
        × (r ≡ err store_failure)
        × IsUnchanged w w')
    ⊎ ((can_transition w.live.status candidate.status ≡ true)
        × (env.store_fails w.step ≡ false)
        × (r ≡ ok tt)
        × IsCommitted candidate ev w w')

gate :
    (env : Env) (candidate : SnipeState) (ev : Event) (w : World) (o : Outcome)
    → IsStored w
    → candidate.id ≡ w.live.id
    → candidate.created_at ≡ w.live.created_at
    → (can_transition w.live.status candidate.status ≡ false
        → o ≡ (err (invalid_transition w.live.status candidate.status), w))
    → (can_transition w.live.status candidate.status ≡ true → o ≡ persist env candidate ev w)
    → Gated env candidate ev w o
gate env candidate ev w o stored same_id same_created refused passed =
    elim (Bool-cases (can_transition w.live.status candidate.status)) [
      | inr illegal ↦ rw (refused illegal) (inl (illegal, refl, refl))
      | inl legal ↦
          rw (passed legal) (elim (persist_cases env candidate ev w stored same_id same_created) [
            | inl (f, r, u) ↦ inr (inl (legal, f, r, u))
            | inr (f, r, c) ↦ inr (inr (legal, f, r, c))
          ])
    ]

-- Transition refuses a move that the table does not have and touches nothing; it reports a failed
-- write, after which memory, store and events are as they were; otherwise the new status, stamped
-- with the time, is in memory and in the store, its event is appended and its notification sent.
pub transition_to-Gated :
    (env : Env) (to : Status) (kind : EventType) (attrs : List Attr) (w : World)
    → IsStored w
    → Gated env
        (record w.live { status = to; updated_at = w.now })
        (event_of w kind attrs)
        w
        (transition_to env to kind attrs w)
unfolding transition_to transition
transition_to-Gated env to kind attrs w stored =
    gate env _ _ w _ stored refl refl (λ illegal. rw illegal) (λ legal. rw legal)

-- transitionToScheduled refuses a move that the table does not have and touches nothing; it reports a
-- failed write, after which memory, store and events are as they were; otherwise Scheduled, with the
-- scheduled time and the time of the move, is in memory and in the store, its event is appended and
-- its notification sent.
pub transition_to_scheduled-Gated :
    (env : Env) (at : Time) (w : World)
    → IsStored w
    → Gated env
        (record w.live { status = scheduled; scheduled_at = at; updated_at = w.now })
        (event_of w scheduled_event
          (scheduled_at at ∷ venue_ref (venue_text w.live.intent.venue) ∷ []))
        w
        (transition_to_scheduled env at w)
unfolding transition_to_scheduled transition
transition_to_scheduled-Gated env at w stored =
    gate env _ _ w _ stored refl refl (λ illegal. rw illegal) (λ legal. rw legal)

-- A transition that returns no error has committed its candidate.
pub transition_to-IsCommitted :
    (env : Env) (to : Status) (kind : EventType) (attrs : List Attr) (w : World)
    → IsStored w
    → (transition_to env to kind attrs w).0 ≡ ok tt
    → IsCommitted
        (record w.live { status = to; updated_at = w.now })
        (event_of w kind attrs)
        w
        (transition_to env to kind attrs w).1
transition_to-IsCommitted env to kind attrs w stored success =
    elim (transition_to-Gated env to kind attrs w stored) [
      | inl (illegal, e, same) ↦ absurd (err≢ok (sym e ∙ success))
      | inr (inl (legal, f, e, u)) ↦ absurd (err≢ok (sym e ∙ success))
      | inr (inr (legal, f, e, c)) ↦ c
    ]
