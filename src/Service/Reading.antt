-- ===== src/Service/Reading.antt =====
-- GetQuest and ListQuests of internal/service/standard_quest.go.
use resy_snipe.Planner.Strategy.{Note}
use resy_snipe.Service.Planning.{failure_of, plan_quest, user_required}
use resy_snipe.Domain.Plan.{Plan}
use resy_snipe.Domain.Snipe.{Event}
use resy_snipe.Service.Errors.{ServiceError, wrapping, not_found, wrapped, internal}
use resy_snipe.Domain.Status.{Status}
use resy_snipe.Store.Quests.GoalCodec.{unmarshal_goal, GoalCodecError}
use resy_snipe.Prelude.{String, List, Option, if◌then◌else◌, map, some, str_eq, none}
use resy_snipe.Store.Quests.Listing.{list_quests, QuestListFilter, list_quest_events}
use resy_snipe.Store.Quests.{QuestRow, get_quest, QuestStoreError, quest_not_found}
use resy_snipe.Prelude.Results.{Result, err, ok}
use resy_snipe.Domain.Dates.{ℤ, Time, pos}
use resy_snipe.Service.State.{ServiceEnv, audit, ServiceState}
use resy_snipe.Domain.Goal.{Goal}
use Prim.Native.String.{◌++◌}

abbrev pub action_quest_get : String
action_quest_get = "quest.get"

abbrev pub action_quest_list : String
action_quest_list = "quest.list"

pub record QuestSummary : Type 0 where
  pub id : String
  pub user_id : String
  pub account_id : String
  pub status : Status
  pub created_at : Time
  pub updated_at : Time
  pub completed_at : Option Time
  pub plan_hash : String

-- The plan is the zero value when it cannot be built again.
pub record QuestState : Type 0 where
  pub summary : QuestSummary
  pub goal : Goal
  pub plan : Option (Plan Note)
  pub events : List Event

-- summaryFromRow.
unfoldable pub summary_from_row : QuestRow → QuestSummary
summary_from_row r = record {
  id = r.id;
  user_id = r.user_id;
  account_id = r.account_id;
  status = r.status;
  created_at = r.created_at;
  updated_at = r.updated_at;
  completed_at = r.completed_at;
  plan_hash = r.plan_hash;
}

-- The store's errors as the adapter hands them on: a missing quest is the service's ErrNotFound.
abbrev pub store_failure_of : ServiceEnv → QuestStoreError → ServiceError
store_failure_of env quest_not_found = wrapping not_found "" ""
store_failure_of env e = internal (env.store_error_text e)

-- defaultEventLimit.
abbrev pub default_event_limit : ℤ
default_event_limit = pos 50

abbrev plan_of : Result ServiceError (Plan Note) → Option (Plan Note)
plan_of (ok p) = some p
plan_of (err e) = none

abbrev with_plan :
    QuestRow
    → Goal
    → List Event
    → Result ServiceError (Plan Note) × ServiceState
    → Result ServiceError QuestState × ServiceState
with_plan row goal events (plan, s) = (
  ok (record { summary = summary_from_row row; goal = goal; plan = plan_of plan; events = events }),
  s,
)

abbrev with_goal :
    ServiceEnv
    → String
    → String
    → Time
    → ServiceState
    → QuestRow
    → Result GoalCodecError Goal
    → Result ServiceError QuestState × ServiceState
with_goal env user quest plan_now s row (err e) =
    (err (internal ("GetQuest decode goal: " ++ env.codec_error_text e)), s)
with_goal env user quest plan_now s row (ok goal) =
    with_plan row goal (list_quest_events user quest default_event_limit s.quest_db)
      (plan_quest env user goal plan_now s)

abbrev with_row :
    ServiceEnv
    → String
    → String
    → Time
    → ServiceState
    → Result QuestStoreError QuestRow
    → Result ServiceError QuestState × ServiceState
with_row env user quest plan_now s (err e) = (err (store_failure_of env e), s)
with_row env user quest plan_now s (ok row) =
    with_goal env user quest plan_now s row (unmarshal_goal env.of_json row.goal_json)

abbrev audit_read :
    {A : Type 0}
    → String
    → String
    → String
    → Result ServiceError A × ServiceState
    → Result ServiceError A × ServiceState
audit_read user action target (answer, s) = (answer, audit user action target (failure_of answer) s)

-- GetQuest; the plan is built again, which is audited as well.
unfoldable pub get :
    ServiceEnv
    → String
    → String
    → Time
    → ServiceState
    → Result ServiceError QuestState × ServiceState
unfolding summary_from_row get_quest unmarshal_goal list_quest_events plan_quest audit
get env user quest plan_now s =
    if str_eq user ""
    then (err (user_required "GetQuest"), s)
    else audit_read user action_quest_get quest
        (with_row env user quest plan_now s (get_quest user quest s.quest_db))

abbrev summaries :
    ServiceEnv → Result QuestStoreError (List QuestRow) → Result ServiceError (List QuestSummary)
summaries env (err e) = err (wrapped "ListQuests: " (store_failure_of env e))
summaries env (ok rows) = ok (map summary_from_row rows)

-- ListQuests.
unfoldable pub list :
    ServiceEnv
    → String
    → QuestListFilter
    → ServiceState
    → Result ServiceError (List QuestSummary) × ServiceState
unfolding summary_from_row list_quests audit
list env user filter s =
    if str_eq user ""
    then (err (user_required "ListQuests"), s)
    else audit_read user action_quest_list ""
        (summaries env (list_quests env.parse_cursor user filter s.quest_db), s)
