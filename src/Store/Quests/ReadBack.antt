-- ===== src/Store/Quests/ReadBack.antt =====
-- Reading back what internal/store/quests.go writes of a quest and of its goal.
use resy_snipe.Store.Accounts.{has_account}
use resy_snipe.Prelude.Results.{ok, guard_ok, guard_last, is_none→none}
use resy_snipe.Domain.Goal.{Goal}
use resy_snipe.Prelude.{◌≡◌, none, ◌++◌, ◌∷◌, [], str_eq, ◌||◌, not, ◌&&◌, is_none}
use resy_snipe.Domain.Status.{
  Status, scheduled, finding, submitted, failed, discovering, awaiting, booking, booked, expired,
  canceled,
}
use resy_snipe.Store.Quests.{create_quest, find_quest, QuestRow, QuestDb, quest_columns, has_text}

-- The status that is read back of one that is written: the first of its bucket.
unfoldable pub stored_status : Status → Status
stored_status submitted = submitted
stored_status scheduled = scheduled
stored_status discovering = scheduled
stored_status awaiting = scheduled
stored_status finding = finding
stored_status booking = finding
stored_status booked = booked
stored_status failed = failed
stored_status expired = failed
stored_status canceled = canceled

pub create_quest-ok :
    (q : QuestRow) (db db' : QuestDb)
    → create_quest q db ≡ ok db'
    → (find_quest q.id db.quests ≡ none)
      × (record db { quests = db.quests ++ quest_columns q ∷ [] } ≡ db')
unfolding create_quest
create_quest-ok q db db' made =
    let (given, known) =
      guard_ok (str_eq q.id "" || str_eq q.user_id "" || str_eq q.account_id "") _ _ made in
    let (present, fresh) =
      guard_ok (not (has_text q.user_id db.users && has_account q.account_id db.accounts)) _ _
        known in
    let (new, after) = guard_last (is_none (find_quest q.id db.quests)) _ fresh in
    (is_none→none (find_quest q.id db.quests) new, after)
