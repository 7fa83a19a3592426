-- ===== src/Engine/Transition.antt =====
-- internal/engine/state.go, transitionToScheduled of run.go, and Load and Submit of engine.go: the
-- gate through which every status change passes.
use resy_snipe.Store.Snipes.{append_event, get_snipe, transition_snipe, create_snipe}
use resy_snipe.Prelude.Results.{err, ok}
use resy_snipe.Domain.Intent.{Intent, venue_text}
use resy_snipe.Domain.Dates.{Time}
use resy_snipe.Domain.Snipe.{
  EventType, SnipeState, Event, Attr, new_snipe_state, snipe_id, submitted_event, intent_hash,
  transition, venue_ref, scheduled_event, scheduled_at,
}
use resy_snipe.Prelude.{String, List, if◌then◌else◌, none, not, some, ◌∷◌, []}
use resy_snipe.Domain.Status.{Status, can_transition, submitted, scheduled}
use resy_snipe.Engine.World.{
  Env, World, Outcome, Notification, tick, store_failure, invalid_transition, store_refused, emit,
}
pub mod Atomic
pub mod Submit

-- Commit a candidate: one statement of the store, then the swap and the notification.
unfoldable pub persist : Env → SnipeState → Event → World → Outcome
persist env candidate ev w =
    let w' = tick env w in
    let note : Notification = record {
      snipe_id = candidate.id;
      from = some w.live.status;
      to = candidate.status;
      event = ev;
    } in
    if env.store_fails w.step
    then (err store_failure, w')
    else elim (transition_snipe w.db candidate ev) [
      | err e ↦ (err (store_refused e), w')
      | ok db' ↦ (ok tt, emit note (record w' { db = db'; live = candidate }))
    ]

-- The attributes of an event, the snipe's id first.
abbrev pub event_of : World → EventType → List Attr → Event
event_of w kind attrs = record { kind = kind; at = w.now; attrs = snipe_id w.live.id ∷ attrs }

-- SnipeState.Transition.
unfoldable pub transition_to : Env → Status → EventType → List Attr → World → Outcome
unfolding persist
transition_to env to kind attrs w =
    if not (can_transition w.live.status to)
    then (err (invalid_transition w.live.status to), w)
    else elim (transition w.live to) [
      | err e ↦ (err (invalid_transition e.from e.to), w)
      | ok candidate ↦
          persist env (record candidate { updated_at = w.now }) (event_of w kind attrs) w
    ]

-- transitionToScheduled: the scheduled time is stamped in the same write.
unfoldable pub transition_to_scheduled : Env → Time → World → Outcome
unfolding persist
transition_to_scheduled env at w =
    if not (can_transition w.live.status scheduled)
    then (err (invalid_transition w.live.status scheduled), w)
    else elim (transition w.live scheduled) [
      | err e ↦ (err (invalid_transition e.from e.to), w)
      | ok candidate ↦
          persist env (record candidate { scheduled_at = at; updated_at = w.now })
            (event_of w scheduled_event
              (scheduled_at at ∷ venue_ref (venue_text w.live.intent.venue) ∷ []))
            w
    ]

-- Engine.Load: the handle that it returns becomes the snipe in memory.
unfoldable pub load : Env → String → World → Outcome
load env id w =
    if env.store_fails w.step then (err store_failure, tick env w) else elim (get_snipe w.db id) [
      | err e ↦ (err (store_refused e), tick env w)
      | ok s ↦ (ok tt, record (tick env w) { live = s })
    ]

unfoldable pub submit_event : Env → SnipeState → Event → World → Outcome
submit_event env s ev w =
    let note : Notification = record { snipe_id = s.id; from = none; to = submitted; event = ev } in
    if env.store_fails w.step
    then (err store_failure, tick env w)
    else elim (append_event w.db s.id ev) [
      | err e ↦ (err (store_refused e), tick env w)
      | ok db' ↦ (ok tt, emit note (record (tick env w) { db = db'; live = s }))
    ]

-- Engine.Submit: the row and its first event are two statements of the store.
unfoldable pub submit : Env → String → Intent → World → Outcome
unfolding submit_event
submit env id intent w =
    let s = new_snipe_state id intent w.now in
    let ev : Event = record {
      kind = submitted_event;
      at = w.now;
      attrs =
          snipe_id id
          ∷ intent_hash (env.intent_hash intent)
          ∷ venue_ref (venue_text intent.venue)
          ∷ [];
    } in
    if env.store_fails w.step then (err store_failure, tick env w) else elim (create_snipe w.db s) [
      | err e ↦ (err (store_refused e), tick env w)
      | ok db' ↦ submit_event env s ev (record (tick env w) { db = db' })
    ]
