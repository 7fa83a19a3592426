-- ===== src/Service/Canceling.antt =====
-- CancelQuest of internal/service/standard_quest.go. It writes the database only: the engine has no
-- call that would stop a snipe.
use resy_snipe.Domain.Status.{is_terminal, canceled}
use resy_snipe.Service.Planning.{user_required}
use resy_snipe.Service.Reading.{store_failure_of}
use resy_snipe.Prelude.Results.{Result, err, ok}
use resy_snipe.Service.Errors.{ServiceError, internal, wrapping, idempotency_conflict, wrapped}
use resy_snipe.Store.Idempotency.{IdempotencyLookup}
use resy_snipe.Domain.Dates.{Time}
use resy_snipe.Prelude.{Option, String, if◌then◌else◌, ◌∷◌, [], str_eq, some, none}
use resy_snipe.Store.Quests.{get_quest, update_quest_status, QuestStoreError, QuestDb, QuestRow}
use resy_snipe.Domain.Snipe.{Event, canceled_event, reason}
use resy_snipe.Service.State.{
  ServiceEnv, idempotency_gate, record_idempotency, ServiceState, Gate, audit, payload_hash_for,
  write_event_row, answered, proceed, target_or_empty,
}
use Prim.Native.String.{◌++◌}
pub mod Effects

abbrev pub action_quest_cancel : String
action_quest_cancel = "quest.cancel"

abbrev pub scope_cancel_quest : String
scope_cancel_quest = "cancel_quest"

-- What every step of one call reads; `reason` and `key` are CancelOpts.
pub record CancelCall : Type 0 where
  pub user : String
  pub quest : String
  pub cancel_reason : String
  pub key : Option String
  pub now : Time

unfoldable pub finish_cancel :
    ServiceEnv
    → CancelCall
    → Option ServiceError
    → ServiceState
    → Option ServiceError × ServiceState
unfolding record_idempotency
finish_cancel env c failure s = (
  failure,
  record_idempotency env c.user scope_cancel_quest c.key (payload_hash_for env c.quest) c.quest
      failure c.now s,
)

abbrev pub canceled_at : CancelCall → Event
canceled_at c = record { kind = canceled_event; at = c.now; attrs = reason c.cancel_reason ∷ [] }

abbrev pub after_update :
    ServiceEnv
    → CancelCall
    → ServiceState
    → Result QuestStoreError QuestDb
    → Option ServiceError × ServiceState
after_update env c s (err e) =
    finish_cancel env c (some (wrapped "CancelQuest: " (store_failure_of env e))) s
after_update env c s (ok db) =
    finish_cancel env c none
      (write_event_row env c.user c.quest (canceled_at c) (record s { quest_db = db }))

abbrev pub after_row :
    ServiceEnv
    → CancelCall
    → ServiceState
    → Result QuestStoreError QuestRow
    → Option ServiceError × ServiceState
after_row env c s (err e) = finish_cancel env c (some (store_failure_of env e)) s
after_row env c s (ok row) =
    if is_terminal row.status
    then finish_cancel env c none s
    else after_update env c s
        (update_quest_status c.user c.quest canceled (some c.now) c.now s.quest_db)

abbrev cancel_lookup_failed : String → ServiceError
cancel_lookup_failed t = internal ("CancelQuest idempotency lookup: " ++ t)

unfoldable pub used_for_another_quest : ServiceEnv → String → IdempotencyLookup → ServiceError
used_for_another_quest env key l = wrapping idempotency_conflict "CancelQuest: " (
    ": idempotency key "
    ++ env.quote key
    ++ " previously used to cancel "
    ++ env.quote (target_or_empty l.target))

unfoldable pub cancel_gate : ServiceEnv → CancelCall → ServiceState → Gate
unfolding idempotency_gate
cancel_gate env c s =
    idempotency_gate env c.user scope_cancel_quest c.key (payload_hash_for env c.quest) c.now
      cancel_lookup_failed (used_for_another_quest env) s

abbrev pub after_cancel_gate :
    ServiceEnv → CancelCall → ServiceState → Gate → Option ServiceError × ServiceState
after_cancel_gate env c s (answered target failure) = (failure, s)
after_cancel_gate env c s proceed = after_row env c s (get_quest c.user c.quest s.quest_db)

abbrev pub audit_canceled :
    CancelCall → Option ServiceError × ServiceState → Option ServiceError × ServiceState
audit_canceled c (failure, s) = (failure, audit c.user action_quest_cancel c.quest failure s)

-- CancelQuest.
unfoldable pub cancel_quest :
    ServiceEnv → CancelCall → ServiceState → Option ServiceError × ServiceState
unfolding cancel_gate finish_cancel get_quest update_quest_status write_event_row audit
cancel_quest env c s =
    if str_eq c.user ""
    then (some (user_required "CancelQuest"), s)
    else audit_canceled c (after_cancel_gate env c s (cancel_gate env c s))
