-- ===== src/Service/Subscribing.antt =====
-- SubscribeQuest of internal/service/standard_quest.go: the gate, the history, then the live
-- events. The caller's goroutine reads and replays the history, subscribes to the engine and reads
-- the channel; the engine's emissions and the end of the context come at any time between these
-- steps.
use resy_snipe.Domain.Dates.{pos}
use resy_snipe.Service.Planning.{user_required}
use resy_snipe.Service.Reading.{store_failure_of}
use resy_snipe.Service.Errors.{ServiceError, wrapping, invalid_argument}
use resy_snipe.Prelude.Results.{Result, err, ok}
use resy_snipe.Store.Quests.{get_quest, QuestStoreError, QuestRow}
use resy_snipe.Domain.Status.{Status, is_terminal}
use resy_snipe.Store.Quests.Listing.{list_quest_events}
use resy_snipe.Domain.Snipe.{
  EventType, Event, booked_event, failed_event, canceled_event, expired_event,
}
use resy_snipe.Prelude.{
  List, String, if◌then◌else◌, ℕ, Bool, [], false, ltb, true, ◌∷◌, length, ◌++◌, not, str_eq, some,
  none,
}
use resy_snipe.Service.State.{ServiceEnv, write_event_row, ServiceState, audit}
use resy_snipe.Engine.World.{Notification}
pub mod Order
pub mod Twice

abbrev pub action_quest_subscribe : String
action_quest_subscribe = "quest.subscribe"

-- liveBuf.
abbrev pub live_buf : ℕ
live_buf = 64

-- How far a call is: past the tenancy gate; with the history that is left to replay; subscribed to
-- the engine, with the channel `live`, oldest first; and returned, which ends the subscription.
pub data Phase : Type 0 where
  opened closed : Phase
  replaying pumping : List Event → Phase

-- A call in progress; `terminal` tells whether the gate read a terminal status, and `delivered` are
-- the callback's calls.
pub record Subscription : Type 0 where
  pub user : String
  pub quest : String
  pub terminal : Bool
  pub phase : Phase
  pub delivered : List Event

-- isTerminalEvent.
unfoldable pub is_terminal_event : EventType → Bool
is_terminal_event booked_event = true
is_terminal_event failed_event = true
is_terminal_event canceled_event = true
is_terminal_event expired_event = true
is_terminal_event _ = false

abbrev pub started : String → String → Status → Subscription
started user quest st = record {
  user = user;
  quest = quest;
  terminal = is_terminal st;
  phase = opened;
  delivered = [];
}

abbrev pub on_gate :
    ServiceEnv
    → String
    → String
    → ServiceState
    → Result QuestStoreError QuestRow
    → Result ServiceError Subscription × ServiceState
on_gate env user quest s (err e) = (
  err (store_failure_of env e),
  audit user action_quest_subscribe quest (some (store_failure_of env e)) s,
)
on_gate env user quest s (ok row) =
    (ok (started user quest row.status), audit user action_quest_subscribe quest none s)

-- SubscribeQuest up to the audit; `has_callback` is the test for a nil callback.
unfoldable pub subscribe_quest :
    ServiceEnv
    → Bool
    → String
    → String
    → ServiceState
    → Result ServiceError Subscription × ServiceState
unfolding get_quest audit is_terminal
subscribe_quest env has_callback user quest s =
    if str_eq user ""
    then (err (user_required "SubscribeQuest"), s)
    else if not has_callback
    then (err (wrapping invalid_argument "SubscribeQuest: " ": callback is required"), s)
    else on_gate env user quest s (get_quest user quest s.quest_db)

-- ListQuestEvents, once the gate is passed.
unfoldable pub read_history : ServiceState → Subscription → Phase → Phase
unfolding list_quest_events
read_history s sub opened = replaying (list_quest_events sub.user sub.quest (pos 0) s.quest_db)
read_history s sub ph = ph

-- One round of the replay: an event goes to the callback; after the last the call returns if the
-- quest is terminal, and otherwise subscribes to the engine.
unfoldable pub replay_next : Subscription → Phase → Subscription
replay_next sub (replaying (ev ∷ evs)) = record sub {
  phase = replaying evs;
  delivered = sub.delivered ++ ev ∷ [];
}
replay_next sub (replaying []) = record sub { phase = if sub.terminal then closed else pumping [] }
replay_next sub ph = sub

abbrev pub put_live : List Event → Event → List Event
put_live live ev = if ltb (length live) live_buf then live ++ ev ∷ [] else live

-- What the engine calls with every notification while the subscription stands: a write of the
-- event, and a send that never blocks. At other times the call does not see what the engine emits.
unfoldable pub on_notification :
    ServiceEnv → Notification → Subscription → Phase → ServiceState → Subscription × ServiceState
on_notification env n sub (pumping live) s =
    if str_eq n.snipe_id sub.quest
    then (
      record sub { phase = pumping (put_live live n.event) },
      write_event_row env sub.user sub.quest n.event s,
    )
    else (sub, s)
on_notification env n sub ph s = (sub, s)

-- One round of the pump.
unfoldable pub pump : Subscription → Phase → Subscription
unfolding is_terminal_event
pump sub (pumping (ev ∷ evs)) = record sub {
  phase = if is_terminal_event ev.kind then closed else pumping evs;
  delivered = sub.delivered ++ ev ∷ [];
}
pump sub ph = sub

pub data SubscriptionStep : Type 0 where
  emitted : Notification → SubscriptionStep
  history_read replayed pumped context_done : SubscriptionStep

unfoldable pub subscription_step :
    ServiceEnv → SubscriptionStep → Subscription × ServiceState → Subscription × ServiceState
unfolding read_history replay_next on_notification pump
subscription_step env (emitted n) (sub, s) = on_notification env n sub sub.phase s
subscription_step env history_read (sub, s) =
    (record sub { phase = read_history s sub sub.phase }, s)
subscription_step env replayed (sub, s) = (replay_next sub sub.phase, s)
subscription_step env pumped (sub, s) = (pump sub sub.phase, s)
subscription_step env context_done (sub, s) = (record sub { phase = closed }, s)

unfoldable pub subscription_run :
    ServiceEnv → List SubscriptionStep → Subscription × ServiceState → Subscription × ServiceState
unfolding subscription_step
subscription_run env [] x = x
subscription_run env (st ∷ sts) x = subscription_run env sts (subscription_step env st x)
