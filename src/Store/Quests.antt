-- ===== src/Store/Quests.antt =====
-- internal/store/quests.go and quest_events.go: the tables quests and quest_events of all users. A
-- statement works on the list of a table's rows. Times are written in whole milliseconds, rounded
-- down. The row ids of quest_events count up, so its list is in their order.
use resy_snipe.Store.Accounts.{AccountDbRow, has_account}
use resy_snipe.Domain.Snipe.{Event, EventType, Attr}
use resy_snipe.Domain.Dates.{Time, millisecond}
use resy_snipe.Store.Idempotency.{to_ms}
use resy_snipe.Prelude.Results.{Result, err, ◌>>=◌, ok}
use resy_snipe.Prelude.{
  Bool, List, Option, String, false, if◌then◌else◌, none, str_eq, ℕ, ◌∷◌, [], is_none, some, ◌&&◌,
  ◌||◌, not, ◌*◌, ◌++◌,
}
use resy_snipe.Domain.Status.{
  Status, submitted, scheduled, discovering, finding, awaiting, booked, booking, failed, canceled,
  expired,
}
pub mod Listing
pub mod GoalCodec
pub mod ReadBack
pub mod Tenancy
mod Lookup
pub mod Refinement

-- QuestRow.
pub record QuestRow : Type 0 where
  pub id : String
  pub user_id : String
  pub account_id : String
  pub goal_json : String
  pub plan_hash : String
  pub status : Status
  pub created_at : Time
  pub updated_at : Time
  pub completed_at : Option Time

-- A row of the table quests; NULL is `none`.
pub record QuestDbRow : Type 0 where
  pub id : String
  pub user_id : String
  pub account_id : String
  pub goal_json : String
  pub plan_hash : String
  pub status : String
  pub created_ms : ℕ
  pub updated_ms : ℕ
  pub completed_ms : Option ℕ

-- A row of the table quest_events.
pub record QuestEventRow : Type 0 where
  pub quest_id : String
  pub user_id : String
  pub kind : EventType
  pub at_ms : ℕ
  pub fields : List Attr

-- The foreign keys look in the users' ids and the accounts.
pub record QuestDb : Type 0 where
  pub users : List String
  pub accounts : List AccountDbRow
  pub quests : List QuestDbRow
  pub quest_events : List QuestEventRow

pub data QuestStoreError : Type 0 where
  fields_required quest_not_found constraint_violated unknown_quest_status : QuestStoreError
  cursor_malformed : QuestStoreError

-- statusDBString.
unfoldable pub status_db_string : Status → String
status_db_string submitted = "pending"
status_db_string scheduled = "scheduled"
status_db_string discovering = "scheduled"
status_db_string awaiting = "scheduled"
status_db_string finding = "firing"
status_db_string booking = "firing"
status_db_string booked = "booked"
status_db_string failed = "failed"
status_db_string expired = "failed"
status_db_string canceled = "cancelled"

-- parseStatusDB.
unfoldable pub parse_status_db : String → Result QuestStoreError Status
parse_status_db s =
    if str_eq s "pending"
    then ok submitted
    else if str_eq s "scheduled"
    then ok scheduled
    else if str_eq s "firing"
    then ok finding
    else if str_eq s "booked"
    then ok booked
    else if str_eq s "failed"
    then ok failed
    else if str_eq s "cancelled"
    then ok canceled
    else err unknown_quest_status

abbrev pub to_ms_option : Option Time → Option ℕ
to_ms_option none = none
to_ms_option (some t) = some (to_ms t)

abbrev pub from_ms_option : Option ℕ → Option Time
from_ms_option none = none
from_ms_option (some t) = some (t * millisecond)

-- The columns that CreateQuest writes.
unfoldable pub quest_columns : QuestRow → QuestDbRow
unfolding status_db_string
quest_columns q = record {
  id = q.id;
  user_id = q.user_id;
  account_id = q.account_id;
  goal_json = q.goal_json;
  plan_hash = q.plan_hash;
  status = status_db_string q.status;
  created_ms = to_ms q.created_at;
  updated_ms = to_ms q.updated_at;
  completed_ms = to_ms_option q.completed_at;
}

-- scanQuestRow.
unfoldable pub scan_quest_row : QuestDbRow → Result QuestStoreError QuestRow
unfolding parse_status_db
scan_quest_row r = do
  st ← parse_status_db r.status
  ok (record {
    id = r.id;
    user_id = r.user_id;
    account_id = r.account_id;
    goal_json = r.goal_json;
    plan_hash = r.plan_hash;
    status = st;
    created_at = r.created_ms * millisecond;
    updated_at = r.updated_ms * millisecond;
    completed_at = from_ms_option r.completed_ms;
  })

abbrev pub has_text : String → List String → Bool
has_text t [] = false
has_text t (x ∷ xs) = str_eq x t || has_text t xs

-- A row with the primary key.
unfoldable pub find_quest : String → List QuestDbRow → Option QuestDbRow
find_quest id [] = none
find_quest id (r ∷ rs) = let rest = find_quest id rs in if str_eq r.id id then some r else rest

-- WHERE id = ? AND user_id = ?.
abbrev pub is_quest_of : String → String → QuestDbRow → Bool
is_quest_of user id r = str_eq r.id id && str_eq r.user_id user

unfoldable pub find_quest_of : String → String → List QuestDbRow → Option QuestDbRow
find_quest_of user id [] = none
find_quest_of user id (r ∷ rs) =
    let rest = find_quest_of user id rs in if is_quest_of user id r then some r else rest

-- CreateQuest: the primary key, and the foreign keys to the user and to the account.
unfoldable pub create_quest : QuestRow → QuestDb → Result QuestStoreError QuestDb
unfolding find_quest quest_columns
create_quest q db =
    if str_eq q.id "" || str_eq q.user_id "" || str_eq q.account_id ""
    then err fields_required
    else if not (has_text q.user_id db.users && has_account q.account_id db.accounts)
    then err constraint_violated
    else if is_none (find_quest q.id db.quests)
    then ok (record db { quests = db.quests ++ quest_columns q ∷ [] })
    else err constraint_violated

abbrev pub scan_found : Option QuestDbRow → Result QuestStoreError QuestRow
scan_found none = err quest_not_found
scan_found (some r) = scan_quest_row r

-- GetQuest.
unfoldable pub get_quest : String → String → QuestDb → Result QuestStoreError QuestRow
unfolding find_quest_of
get_quest user id db = scan_found (find_quest_of user id db.quests)

-- SET status = ?, updated_at = ?, completed_at = ?.
abbrev pub set_status : Status → Option Time → Time → QuestDbRow → QuestDbRow
set_status st completed_at updated_at r = record r {
  status = status_db_string st;
  updated_ms = to_ms updated_at;
  completed_ms = to_ms_option completed_at;
}

-- UPDATE of the rows that the WHERE clause selects.
unfoldable pub update_quests :
    (QuestDbRow → Bool) → (QuestDbRow → QuestDbRow) → List QuestDbRow → List QuestDbRow
update_quests p f [] = []
update_quests p f (r ∷ rs) = let rest = update_quests p f rs in if p r then f r ∷ rest else r ∷ rest

-- UpdateQuestStatus: no row affected is not found.
unfoldable pub update_quest_status :
    String → String → Status → Option Time → Time → QuestDb → Result QuestStoreError QuestDb
unfolding find_quest_of update_quests
update_quest_status user id st completed_at updated_at db =
    if is_none (find_quest_of user id db.quests)
    then err quest_not_found
    else ok (record db {
      quests =
          update_quests (is_quest_of user id) (set_status st completed_at updated_at) db.quests;
    })

-- WriteQuestEvent: INSERT … SELECT … WHERE EXISTS the quest of the user.
unfoldable pub write_quest_event :
    String → String → Event → QuestDb → Result QuestStoreError QuestDb
unfolding find_quest_of
write_quest_event user id ev db =
    if str_eq user "" || str_eq id ""
    then err fields_required
    else if is_none (find_quest_of user id db.quests)
    then err quest_not_found
    else ok (record db {
      quest_events =
          db.quest_events
          ++ record {
            quest_id = id;
            user_id = user;
            kind = ev.kind;
            at_ms = to_ms ev.at;
            fields = ev.attrs;
          }
            ∷ [];
    })
