-- ===== src/Service/Subscribing/Order.antt =====
-- What SubscribeQuest of internal/service/standard_quest.go hands to its callback, and in what
-- order.
use resy_snipe.Domain.Dates.{pos}
use resy_snipe.Domain.Status.{Status, is_terminal, booked, failed, canceled, expired}
use resy_snipe.Store.Quests.Listing.{list_quest_events}
use mathlib.Core.List.{append-nil, append_assoc}
use resy_snipe.Service.State.{ServiceEnv, ServiceState, write_event_row}
use resy_snipe.Domain.Snipe.{
  Event, EventType, booked_event, failed_event, canceled_event, expired_event,
}
use resy_snipe.Prelude.{
  List, String, ℕ, ◌∷◌, [], if◌then◌else◌, length, replicate, suc, ◌≡◌, false, str_eq, zero, ◌++◌,
  ◌≤◌, refl, ◌<◌, sym, arith, ◌∙◌, Bool, ap, true, ◌+◌, length-append, lt→ltb, subst,
}
use resy_snipe.Service.Subscribing.{
  Subscription, is_terminal_event, subscription_run, Phase, SubscriptionStep, subscription_step,
  history_read, on_notification, pump, replay_next, emitted, pumping, read_history, closed,
  context_done, replayed, pumped, replaying, live_buf, opened, put_live, started,
}

-- The events of the quest that the engine emits while the call is subscribed. Before, `left` events
-- of the history are to be replayed.
abbrev pub emitted_for : String → List SubscriptionStep → List Event
emitted_for quest [] = []
emitted_for quest (emitted n ∷ sts) =
    let rest = emitted_for quest sts in if str_eq n.snipe_id quest then n.event ∷ rest else rest
emitted_for quest (st ∷ sts) = emitted_for quest sts

abbrev pub emitted_after : String → List SubscriptionStep → ℕ → List Event
emitted_after quest [] left = []
emitted_after quest (replayed ∷ sts) zero = emitted_for quest sts
emitted_after quest (replayed ∷ sts) (suc left) = emitted_after quest sts left
emitted_after quest (st ∷ sts) left = emitted_after quest sts left

-- The same from the gate on, where the history, of `size` events, is still to be read.
abbrev pub emitted_since : String → List SubscriptionStep → ℕ → List Event
emitted_since quest [] size = []
emitted_since quest (history_read ∷ sts) size = emitted_after quest sts size
emitted_since quest (st ∷ sts) size = emitted_since quest sts size

-- The events that end a quest.
abbrev pub is_last : EventType → Bool
is_last booked_event = true
is_last failed_event = true
is_last canceled_event = true
is_last expired_event = true
is_last kind = false

-- The statuses that a quest can leave.
abbrev pub IsPending : Status → Type 0
IsPending booked = ⊥
IsPending failed = ⊥
IsPending canceled = ⊥
IsPending expired = ⊥
IsPending st = Unit

-- The events up to the first terminal one, which closes the call.
abbrev pub up_to_end : List Event → List Event
up_to_end [] = []
up_to_end (ev ∷ evs) = let rest = up_to_end evs in if is_last ev.kind then ev ∷ [] else ev ∷ rest

-- The context does not end.
abbrev pub StaysOpen : List SubscriptionStep → Type 0
StaysOpen [] = Unit
StaysOpen (context_done ∷ sts) = ⊥
StaysOpen (st ∷ sts) = StaysOpen sts

-- Enough further rounds of the caller's goroutine.
abbrev pub rounds : ℕ → List SubscriptionStep
rounds n = history_read ∷ (replicate n replayed ++ replicate n pumped)

abbrev pub with_rounds : ℕ → List SubscriptionStep → List SubscriptionStep
with_rounds n sts = sts ++ rounds n

abbrev at : Subscription → Phase → List Event → Subscription
at sub ph d = record sub { phase = ph; delivered = d }

-- What the callback has been handed after the steps.
abbrev handed :
    ServiceEnv
    → List SubscriptionStep
    → Subscription
    → Phase
    → List Event
    → ServiceState
    → List Event
handed env sts sub ph d s = (subscription_run env sts (at sub ph d, s)).0.delivered

-- ListQuestEvents for the call.
abbrev past_of : Subscription → ServiceState → List Event
past_of sub s = list_quest_events sub.user sub.quest (pos 0) s.quest_db

closed_hands :
    (env : ServiceEnv) (sts : List SubscriptionStep) (sub : Subscription) (d : List Event)
    (s : ServiceState)
    → handed env sts sub closed d s ≡ d
unfolding subscription_run subscription_step on_notification pump replay_next read_history
closed_hands env [] sub d s = refl
closed_hands env (emitted n ∷ sts) sub d s = closed_hands env sts sub d s
closed_hands env (history_read ∷ sts) sub d s = closed_hands env sts sub d s
closed_hands env (replayed ∷ sts) sub d s = closed_hands env sts sub d s
closed_hands env (pumped ∷ sts) sub d s = closed_hands env sts sub d s
closed_hands env (context_done ∷ sts) sub d s = closed_hands env sts sub d s

-- One round of the pump, and then the others.
pump_goes_on :
    (env : ServiceEnv) (sts : List SubscriptionStep) (sub : Subscription) (ev : Event)
    (l more d : List Event) (s : ServiceState)
    → ((d' : List Event) → handed env sts sub (pumping l) d' s ≡ d' ++ up_to_end more)
    → (last : Bool)
    → handed env sts sub (if last then closed else pumping l) (d ++ ev ∷ []) s
      ≡ d ++ (if last then ev ∷ [] else ev ∷ up_to_end more)
pump_goes_on env sts sub ev l more d s h true = closed_hands env sts sub (d ++ ev ∷ []) s
pump_goes_on env sts sub ev l more d s h false =
    h (d ++ ev ∷ []) ∙ append_assoc d (ev ∷ []) (up_to_end more)

is_terminal_event-is_last : (kind : EventType) → is_last kind ≡ is_terminal_event kind
unfolding is_terminal_event
is_terminal_event-is_last booked_event = refl
is_terminal_event-is_last kind = refl

is_terminal-IsPending : (st : Status) → IsPending st → is_terminal st ≡ false
unfolding is_terminal
is_terminal-IsPending booked h = absurd h
is_terminal-IsPending failed h = absurd h
is_terminal-IsPending canceled h = absurd h
is_terminal-IsPending expired h = absurd h
is_terminal-IsPending st h = refl

pumped_hands :
    (env : ServiceEnv) (sts : List SubscriptionStep) (sub : Subscription) (ev : Event)
    (l more d : List Event) (s : ServiceState)
    → ((d' : List Event) → handed env sts sub (pumping l) d' s ≡ d' ++ up_to_end more)
    → handed env (pumped ∷ sts) sub (pumping (ev ∷ l)) d s ≡ d ++ up_to_end (ev ∷ more)
unfolding subscription_run subscription_step pump
pumped_hands env sts sub ev l more d s h =
    subst
      (λ b.
        handed env sts sub (if b then closed else pumping l) (d ++ ev ∷ []) s
        ≡ d ++ up_to_end (ev ∷ more))
      (is_terminal_event-is_last ev.kind)
      (pump_goes_on env sts sub ev l more d s h (is_last ev.kind))

pumps_hand :
    (env : ServiceEnv) (n : ℕ) (sub : Subscription) (l d : List Event) (s : ServiceState)
    → length l ≤ n
    → handed env (replicate n pumped) sub (pumping l) d s ≡ d ++ up_to_end l
unfolding subscription_run subscription_step pump
pumps_hand env zero sub [] d s h = sym (append-nil d)
pumps_hand env zero sub (ev ∷ l) d s h = absurd (omega (arith, h))
pumps_hand env (suc n) sub [] d s h = pumps_hand env n sub [] d s (omega arith)
pumps_hand env (suc n) sub (ev ∷ l) d s h =
    pumped_hands env (replicate n pumped) sub ev l l d s
      (λ d'. pumps_hand env n sub l d' s (omega (arith, h)))

-- A call that pumps has nothing to replay.
replays_skip :
    (env : ServiceEnv) (k : ℕ) (sts : List SubscriptionStep) (sub : Subscription) (l d : List Event)
    (s : ServiceState)
    → handed env (replicate k replayed ++ sts) sub (pumping l) d s
      ≡ handed env sts sub (pumping l) d s
unfolding subscription_run subscription_step replay_next
replays_skip env zero sts sub l d s = refl
replays_skip env (suc k) sts sub l d s = replays_skip env k sts sub l d s

-- The same after the replay, for a quest that is terminal or not.
abbrev handed_at_end :
    ServiceEnv
    → List SubscriptionStep
    → Subscription
    → List Event
    → ServiceState
    → Bool
    → List Event
handed_at_end env sts sub d s last = handed env sts sub (if last then closed else pumping []) d s

replays_hand :
    (env : ServiceEnv) (k n : ℕ) (sub : Subscription) (h d : List Event) (s : ServiceState)
    → sub.terminal ≡ false
    → length h < k
    → handed env (replicate k replayed ++ replicate n pumped) sub (replaying h) d s ≡ d ++ h
unfolding subscription_run subscription_step replay_next
replays_hand env zero n sub h d s live fits = absurd (omega (arith, fits))
replays_hand env (suc k) n sub [] d s live fits =
    ap (handed_at_end env (replicate k replayed ++ replicate n pumped) sub d s) live
    ∙ replays_skip env k (replicate n pumped) sub [] d s
    ∙ pumps_hand env n sub [] d s (omega arith)
replays_hand env (suc k) n sub (ev ∷ h) d s live fits =
    replays_hand env k n sub h (d ++ ev ∷ []) s live (omega (arith, fits))
    ∙ append_assoc d (ev ∷ []) h

put_live-accepts :
    (l : List Event) (ev : Event) → length l < live_buf → put_live l ev ≡ l ++ ev ∷ []
put_live-accepts l ev h = ap (λ b. if b then l ++ ev ∷ [] else l) (lt→ltb (length l) live_buf h)

-- One notification, of the quest or of another, and then the other steps.
emission_goes_on :
    (env : ServiceEnv) (sts : List SubscriptionStep) (sub : Subscription) (ev : Event)
    (l more d : List Event) (s s' : ServiceState)
    → ((l' : List Event) (s' : ServiceState)
        → length l' + length more ≤ live_buf
        → handed env sts sub (pumping l') d s' ≡ d ++ up_to_end (l' ++ more))
    → (own : Bool) → length l + length (if own then ev ∷ more else more) ≤ live_buf
    → (subscription_run env sts (
        if own
        then (at sub (pumping (put_live l ev)) d, s')
        else (at sub (pumping l) d, s))).0.delivered
      ≡ d ++ up_to_end (l ++ (if own then ev ∷ more else more))
emission_goes_on env sts sub ev l more d s s' ih false room = ih l s room
emission_goes_on env sts sub ev l more d s s' ih true room =
    ap (λ l'. handed env sts sub (pumping l') d s') (put_live-accepts l ev (omega (arith, room)))
    ∙ ih (l ++ ev ∷ []) s' (rw (length-append l (ev ∷ [])) (omega (arith, room)))
    ∙ ap (λ m. d ++ up_to_end m) (append_assoc l (ev ∷ []) more)

-- A call that pumps, over any steps and enough further rounds.
pumping_hands :
    (env : ServiceEnv) (n : ℕ) (sts : List SubscriptionStep) (sub : Subscription) (l d : List Event)
    (s : ServiceState)
    → StaysOpen sts
    → live_buf ≤ n
    → length l + length (emitted_for sub.quest sts) ≤ live_buf
    → handed env (sts ++ rounds n) sub (pumping l) d s
      ≡ d ++ up_to_end (l ++ emitted_for sub.quest sts)
unfolding subscription_run subscription_step on_notification pump replay_next read_history
pumping_hands env n [] sub l d s open_ enough room =
    replays_skip env n (replicate n pumped) sub l d s
    ∙ pumps_hand env n sub l d s (omega (arith, enough, room))
    ∙ ap (λ m. d ++ up_to_end m) (sym (append-nil l))
pumping_hands env n (emitted e ∷ sts) sub l d s open_ enough room =
    emission_goes_on env (sts ++ rounds n) sub e.event l (emitted_for sub.quest sts) d s
      (write_event_row env sub.user sub.quest e.event s)
      (λ l' s'. pumping_hands env n sts sub l' d s' open_ enough) (str_eq e.snipe_id sub.quest) room
pumping_hands env n (history_read ∷ sts) sub l d s open_ enough room =
    pumping_hands env n sts sub l d s open_ enough room
pumping_hands env n (replayed ∷ sts) sub l d s open_ enough room =
    pumping_hands env n sts sub l d s open_ enough room
pumping_hands env n (pumped ∷ sts) sub [] d s open_ enough room =
    pumping_hands env n sts sub [] d s open_ enough room
pumping_hands env n (pumped ∷ sts) sub (ev ∷ l) d s open_ enough room =
    pumped_hands env (sts ++ rounds n) sub ev l (l ++ emitted_for sub.quest sts) d s
      (λ d'. pumping_hands env n sts sub l d' s open_ enough (omega (arith, room)))
pumping_hands env n (context_done ∷ sts) sub l d s open_ enough room = absurd open_

replaying_hands :
    (env : ServiceEnv) (n : ℕ) (sts : List SubscriptionStep) (sub : Subscription) (h d : List Event)
    (s : ServiceState)
    → sub.terminal ≡ false
    → StaysOpen sts
    → live_buf ≤ n
    → length h < n
    → length (emitted_after sub.quest sts (length h)) ≤ live_buf
    → handed env (sts ++ rounds n) sub (replaying h) d s
      ≡ (d ++ h) ++ up_to_end (emitted_after sub.quest sts (length h))
unfolding subscription_run subscription_step on_notification pump replay_next read_history
replaying_hands env n [] sub h d s live open_ enough fits room =
    replays_hand env n n sub h d s live fits ∙ sym (append-nil (d ++ h))
replaying_hands env n (emitted e ∷ sts) sub h d s live open_ enough fits room =
    replaying_hands env n sts sub h d s live open_ enough fits room
replaying_hands env n (history_read ∷ sts) sub h d s live open_ enough fits room =
    replaying_hands env n sts sub h d s live open_ enough fits room
replaying_hands env n (replayed ∷ sts) sub [] d s live open_ enough fits room =
    ap (handed_at_end env (sts ++ rounds n) sub d s) live
    ∙ pumping_hands env n sts sub [] d s open_ enough (omega (arith, room))
    ∙ ap (λ x. x ++ up_to_end (emitted_for sub.quest sts)) (sym (append-nil d))
replaying_hands env n (replayed ∷ sts) sub (ev ∷ h) d s live open_ enough fits room =
    replaying_hands env n sts sub h (d ++ ev ∷ []) s live open_ enough (omega (arith, fits)) room
    ∙ ap (λ x. x ++ up_to_end (emitted_after sub.quest sts (length h))) (append_assoc d (ev ∷ []) h)
replaying_hands env n (pumped ∷ sts) sub h d s live open_ enough fits room =
    replaying_hands env n sts sub h d s live open_ enough fits room
replaying_hands env n (context_done ∷ sts) sub h d s live open_ enough fits room = absurd open_

-- A call whose history is still to be read.
opened_hands :
    (env : ServiceEnv) (n : ℕ) (sts : List SubscriptionStep) (sub : Subscription) (d : List Event)
    (s : ServiceState)
    → sub.terminal ≡ false
    → StaysOpen sts
    → live_buf ≤ n
    → length (past_of sub s) < n
    → length (emitted_since sub.quest sts (length (past_of sub s))) ≤ live_buf
    → handed env (sts ++ rounds n) sub opened d s
      ≡ (d ++ past_of sub s) ++ up_to_end (emitted_since sub.quest sts (length (past_of sub s)))
unfolding subscription_run subscription_step on_notification pump replay_next read_history
opened_hands env n [] sub d s live open_ enough fits room =
    replays_hand env n n sub (past_of sub s) d s live fits ∙ sym (append-nil (d ++ past_of sub s))
opened_hands env n (emitted e ∷ sts) sub d s live open_ enough fits room =
    opened_hands env n sts sub d s live open_ enough fits room
opened_hands env n (history_read ∷ sts) sub d s live open_ enough fits room =
    replaying_hands env n sts sub (past_of sub s) d s live open_ enough fits room
opened_hands env n (replayed ∷ sts) sub d s live open_ enough fits room =
    opened_hands env n sts sub d s live open_ enough fits room
opened_hands env n (pumped ∷ sts) sub d s live open_ enough fits room =
    opened_hands env n sts sub d s live open_ enough fits room
opened_hands env n (context_done ∷ sts) sub d s live open_ enough fits room = absurd open_

-- A call of SubscribeQuest that passed the gate for a quest that is not terminal, with any steps of
-- its goroutine and of the engine in any order, a context that does not end, and `n` further rounds
-- of the replay and of the pump, `n` at least 64 and more than the events of the history, where the
-- engine emits at most 64 events of the quest once the replay has ended: the callback is handed
-- exactly the events of the history that the store holds at the gate, then the quest's events that
-- the engine emitted after the replay ended, in their order, up to the first that is booked,
-- failed, canceled or expired. What is emitted before the replay ended is not among them.
pub subscription_run_in_order :
    (env : ServiceEnv) (n : ℕ) (sts : List SubscriptionStep) (user quest : String) (st : Status)
    (s : ServiceState)
    → IsPending st
    → StaysOpen sts
    → 64 ≤ n
    → length (list_quest_events user quest (pos 0) s.quest_db) < n
    → length (emitted_since quest sts (length (list_quest_events user quest (pos 0) s.quest_db)))
      ≤ 64
    → (subscription_run env (with_rounds n sts) (started user quest st, s)).0.delivered
      ≡ list_quest_events user quest (pos 0) s.quest_db
        ++ up_to_end
            (emitted_since quest sts (length (list_quest_events user quest (pos 0) s.quest_db)))
subscription_run_in_order env n sts user quest st s pending =
    opened_hands env n sts (started user quest st) [] s (is_terminal-IsPending st pending)
