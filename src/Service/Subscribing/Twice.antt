-- ===== src/Service/Subscribing/Twice.antt =====
-- Two calls of SubscribeQuest of internal/service/standard_quest.go for one quest at a time.
use mathlib.Core.List.{append_assoc}
use resy_snipe.Store.Idempotency.{to_ms}
use resy_snipe.Store.Quests.{QuestEventRow, write_quest_event, QuestDbRow, find_quest_of}
use resy_snipe.Prelude.{List, ◌≡◌, true, ◌++◌, str_eq, ◌∷◌, [], ◌||◌, ap, false, is_none, ◌∙◌, refl}
use resy_snipe.Engine.World.{Notification}
use resy_snipe.Domain.Snipe.{Event}
use resy_snipe.Service.State.{ServiceEnv, write_event_row, ServiceState}
use resy_snipe.Service.Subscribing.{Subscription, on_notification, pumping}

-- The row that the event becomes.
abbrev pub event_row : Subscription → Event → QuestEventRow
event_row sub ev = record {
  quest_id = sub.quest;
  user_id = sub.user;
  kind = ev.kind;
  at_ms = to_ms ev.at;
  fields = ev.attrs;
}

-- The engine notifies its subscribers one after another.
unfoldable pub notify_both :
    ServiceEnv → Notification → Subscription → Subscription → ServiceState → ServiceState
notify_both env n a b s = (on_notification env n b b.phase (on_notification env n a a.phase s).1).1

-- The call is in progress, for the quest of the notification, which its user owns.
pub record FollowsQuest (env : ServiceEnv) (n : Notification) (sub : Subscription)
    (rows : List QuestDbRow) : Type 0 where
  pub persists : env.persist_events ≡ true
  pub live : List Event
  pub in_progress : sub.phase ≡ pumping live
  pub its_quest : str_eq n.snipe_id sub.quest ≡ true
  pub named : (str_eq sub.user "" || str_eq sub.quest "") ≡ false
  pub there : is_none (find_quest_of sub.user sub.quest rows) ≡ false

on_notification-writes :
    (env : ServiceEnv) (n : Notification) (sub : Subscription) (s : ServiceState)
    → FollowsQuest env n sub s.quest_db.quests
    → (on_notification env n sub sub.phase s).1 ≡ record s {
      quest_db = record s.quest_db {
        quest_events = s.quest_db.quest_events ++ event_row sub n.event ∷ [];
      };
    }
unfolding on_notification write_event_row write_quest_event
on_notification-writes env n sub s h =
    simp (h.persists, h.in_progress, h.its_quest, h.named, h.there) refl

-- With two calls in progress for one quest, every event that the engine emits is written twice to the
-- history that later calls replay.
pub notify_both_writes_twice :
    (env : ServiceEnv) (n : Notification) (a b : Subscription) (s : ServiceState)
    → FollowsQuest env n a s.quest_db.quests
    → FollowsQuest env n b s.quest_db.quests
    → (notify_both env n a b s).quest_db.quest_events
      ≡ s.quest_db.quest_events ++ event_row a n.event ∷ event_row b n.event ∷ []
unfolding notify_both
notify_both_writes_twice env n a b s ha hb =
    let s1 : ServiceState = record s {
      quest_db = record s.quest_db {
        quest_events = s.quest_db.quest_events ++ event_row a n.event ∷ [];
      };
    } in
    ap (λ (t : ServiceState). (on_notification env n b b.phase t).1.quest_db.quest_events)
      (on_notification-writes env n a s ha)
    ∙ ap (λ (t : ServiceState). t.quest_db.quest_events) (on_notification-writes env n b s1 hb)
    ∙ append_assoc s.quest_db.quest_events (event_row a n.event ∷ []) (event_row b n.event ∷ [])
