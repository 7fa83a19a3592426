-- ===== src/Service/Creating.antt =====
-- CreateQuest of internal/service/standard_quest.go. The id is minted outside: `minted` is what
-- newQuestID returns. The clock is read twice, by CreateQuest and by the PlanQuest that it calls.
use resy_snipe.Engine.Transition.{submit}
use resy_snipe.Domain.Status.{submitted}
use resy_snipe.Domain.Intent.{Intent, as_ref}
use resy_snipe.Store.Quests.{QuestRow, QuestStoreError, QuestDb, create_quest}
use resy_snipe.Planner.Strategy.{Note}
use resy_snipe.Store.Quests.GoalCodec.{marshal_goal}
use resy_snipe.Domain.Plan.{Plan}
use resy_snipe.Domain.Snipe.{Event, submitted_event}
use resy_snipe.Service.Errors.{
  ServiceError, internal, wrapping, idempotency_conflict, invalid_plan_hash, not_found,
}
use resy_snipe.Prelude.Results.{Result, err, ok}
use resy_snipe.Engine.World.{Outcome, EngineError}
use resy_snipe.Store.Idempotency.{IdempotencyLookup}
use resy_snipe.Service.Planning.{plan_quest, user_required}
use resy_snipe.Store.Accounts.{
  get_account_by_email, list_accounts_for_user, AccountError, AccountRow, account_not_found,
}
use resy_snipe.Prelude.{
  Option, String, Bool, List, [], if◌then◌else◌, some, false, none, str_eq, ◌∷◌, not,
}
use resy_snipe.Service.State.{
  ServiceEnv, ServiceState, idempotency_gate, record_idempotency, Gate, audit, answered,
  payload_hash_for, proceed, write_event_row,
}
use resy_snipe.Domain.Dates.{Time}
use resy_snipe.Domain.Goal.{Constraints, Goal}
use Prim.Native.String.{◌++◌}
pub mod Ends
pub mod Replayed
pub mod Refused

abbrev pub action_quest_create : String
action_quest_create = "quest.create"

abbrev pub scope_create_quest : String
scope_create_quest = "create_quest"

-- CreateOpts; a nil pointer is `none`.
pub record CreateOpts : Type 0 where
  pub plan_hash : Option String
  pub idempotency_key : Option String

-- The id and the error that the call returns, which may both be there.
abbrev pub Created : Type 0
Created = String × Option ServiceError

-- What every step of one call reads.
pub record CreateCall : Type 0 where
  pub user : String
  pub goal : Goal
  pub opts : CreateOpts
  pub minted : Result String String
  pub now : Time
  pub plan_now : Time

abbrev pub goal_text : ServiceEnv → CreateCall → String
goal_text env c = marshal_goal env.to_json c.goal

-- Record the outcome under the key, and return it.
unfoldable pub finish :
    ServiceEnv → CreateCall → String → Option ServiceError → ServiceState → Created × ServiceState
unfolding record_idempotency marshal_goal
finish env c id failure s = (
  (id, failure),
  record_idempotency env c.user scope_create_quest c.opts.idempotency_key
      (payload_hash_for env (goal_text env c)) id failure c.now s,
)

-- intentFromPlan.
abbrev wanted_table : Constraints → String
wanted_table c = elim c.table_types [ [] ↦ "" | t ∷ ts ↦ if c.any_table then "" else t ]

unfoldable pub intent_from_plan : String → Plan Note → Goal → Intent
intent_from_plan user p g = record {
  user = user;
  venue = as_ref p.venue;
  date = g.date;
  party_size = g.party;
  slot_prefs = record { time = g.time_prefs.start; table_type = wanted_table g.constraints } ∷ [];
  release = p.strategy;
}

abbrev pub submitted_at : Time → Event
submitted_at now = record { kind = submitted_event; at = now; attrs = [] }

abbrev pub submit_failed : ServiceEnv → EngineError → ServiceError
submit_failed env e = internal ("CreateQuest engine submit: " ++ env.engine_error_text e)

abbrev pub persist_failed : ServiceEnv → QuestStoreError → ServiceError
persist_failed env e = internal ("CreateQuest persist: " ++ env.store_error_text e)

abbrev pub mint_failed : String → ServiceError
mint_failed t = internal ("CreateQuest: " ++ t)

abbrev pub after_submit :
    ServiceEnv → CreateCall → String → ServiceState → Outcome → Created × ServiceState
after_submit env c id s (err e, w) =
    finish env c id (some (submit_failed env e)) (record s { engine = w })
after_submit env c id s (ok done, w) =
    finish env c id none
      (write_event_row env c.user id (submitted_at c.now) (record s { engine = w }))

-- The quest's row.
unfoldable pub new_quest_row : ServiceEnv → CreateCall → Plan Note → String → String → QuestRow
new_quest_row env c p account id = record {
  id = id;
  user_id = c.user;
  account_id = account;
  goal_json = goal_text env c;
  plan_hash = p.hash;
  status = submitted;
  created_at = c.now;
  updated_at = c.now;
  completed_at = none;
}

abbrev pub after_insert :
    ServiceEnv
    → CreateCall
    → Plan Note
    → String
    → ServiceState
    → Result QuestStoreError QuestDb
    → Created × ServiceState
after_insert env c p id s (err e) = finish env c "" (some (persist_failed env e)) s
after_insert env c p id s (ok db) =
    after_submit env c id (record s { quest_db = db })
      (submit env.engine_env id (intent_from_plan c.user p c.goal) s.engine)

abbrev pub after_mint :
    ServiceEnv
    → CreateCall
    → Plan Note
    → String
    → ServiceState
    → Result String String
    → Created × ServiceState
after_mint env c p account s (err t) = finish env c "" (some (mint_failed t)) s
after_mint env c p account s (ok id) =
    after_insert env c p id s (create_quest (new_quest_row env c p account id) s.quest_db)

abbrev find_id : String → List AccountRow → Option String
find_id id [] = none
find_id id (a ∷ accts) = if str_eq a.id id then some a.id else find_id id accts

abbrev account_missing_err : String → ServiceError
account_missing_err account = wrapping not_found ("CreateQuest account " ++ account ++ ": ") ""

abbrev pub listed_account :
    String → Result AccountError (List AccountRow) → Result ServiceError String
listed_account account (err e) = err (account_missing_err account)
listed_account account (ok accts) = elim (find_id account accts) [
  | none ↦ err (account_missing_err account)
  | some id ↦ ok id
]

-- The account by its email and, when there is none, by its id: findAccountByID.
abbrev pub account_by_email :
    ServiceEnv
    → String
    → String
    → ServiceState
    → Result AccountError AccountRow
    → Result ServiceError String
account_by_email env user account s (ok a) = ok a.id
account_by_email env user account s (err account_not_found) =
    listed_account account (list_accounts_for_user user s.quest_db.accounts)
account_by_email env user account s (err e) =
    err (internal ("CreateQuest: " ++ env.account_error_text e))

unfoldable pub quest_account :
    ServiceEnv → String → String → ServiceState → Result ServiceError String
unfolding get_account_by_email list_accounts_for_user
quest_account env user account s =
    account_by_email env user account s (get_account_by_email user account s.quest_db.accounts)

abbrev pub after_account :
    ServiceEnv
    → CreateCall
    → Plan Note
    → ServiceState
    → Result ServiceError String
    → Created × ServiceState
after_account env c p s (err e) = finish env c "" (some e) s
after_account env c p s (ok account) = after_mint env c p account s c.minted

-- The plan that the caller approved must be the one that is planned now.
abbrev pub hash_differs : Option String → String → Bool
hash_differs none hash = false
hash_differs (some approved) hash = not (str_eq approved hash)

abbrev approved_text : Option String → String
approved_text none = ""
approved_text (some t) = t

unfoldable pub hash_mismatch : ServiceEnv → CreateCall → Plan Note → ServiceError
hash_mismatch env c p = wrapping invalid_plan_hash "CreateQuest: " (
    " (caller="
    ++ env.quote (approved_text c.opts.plan_hash)
    ++ " service="
    ++ env.quote p.hash
    ++ ")")

abbrev pub after_plan :
    ServiceEnv
    → CreateCall
    → Result ServiceError (Plan Note) × ServiceState
    → Created × ServiceState
after_plan env c (err e, s) = finish env c "" (some e) s
after_plan env c (ok p, s) =
    if hash_differs c.opts.plan_hash p.hash
    then finish env c "" (some (hash_mismatch env c p)) s
    else after_account env c p s (quest_account env c.user c.goal.account_id s)

abbrev pub lookup_failed : String → ServiceError
lookup_failed t = internal ("CreateQuest idempotency lookup: " ++ t)

unfoldable pub used_for_another_goal : ServiceEnv → String → IdempotencyLookup → ServiceError
used_for_another_goal env key l =
    wrapping idempotency_conflict "CreateQuest: "
      (": idempotency key " ++ env.quote key ++ " previously used with a different goal")

unfoldable pub create_gate : ServiceEnv → CreateCall → ServiceState → Gate
unfolding idempotency_gate
create_gate env c s =
    idempotency_gate env c.user scope_create_quest c.opts.idempotency_key
      (payload_hash_for env (goal_text env c)) c.now lookup_failed (used_for_another_goal env) s

abbrev pub after_gate : ServiceEnv → CreateCall → ServiceState → Gate → Created × ServiceState
after_gate env c s (answered id failure) = ((id, failure), s)
after_gate env c s proceed = after_plan env c (plan_quest env c.user c.goal c.plan_now s)

abbrev pub audit_created : CreateCall → Created × ServiceState → Created × ServiceState
audit_created c ((id, failure), s) = ((id, failure), audit c.user action_quest_create id failure s)

-- CreateQuest; the audit row is written last, with what is returned.
unfoldable pub create : ServiceEnv → CreateCall → ServiceState → Created × ServiceState
unfolding create_gate finish plan_quest quest_account hash_mismatch intent_from_plan new_quest_row
create env c s =
    if str_eq c.user ""
    then (("", some (user_required "CreateQuest")), s)
    else audit_created c (after_gate env c s (create_gate env c s))
