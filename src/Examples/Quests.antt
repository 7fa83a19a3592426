-- ===== src/Examples/Quests.antt =====
-- Tests of internal/store/quests.go and quest_events.go.
use resy_snipe.Examples.{dinner_date, at_clock}
use resy_snipe.Prelude.Texts.{codes}
use resy_snipe.Domain.Status.{expired, finding, booking, canceled}
use resy_snipe.Store.Quests.Tenancy.{
  QuestWrite, apply_writes, write_status, write_create, apply_writes_isolated,
}
use mathlib.Core.Bool.{false≢true}
use resy_snipe.Domain.Dates.{Time, pos, millisecond, ℤ}
use resy_snipe.Store.Accounts.{AccountDbRow}
use resy_snipe.Store.Quests.Listing.{QuestListFilter, list_quests, list_quest_events}
use resy_snipe.Store.Quests.GoalCodec.{GoalJson, goal_shape}
use resy_snipe.Domain.Goal.{Goal, name_query, later}
use resy_snipe.Store.Quests.{QuestDb, QuestRow, find_quest, get_quest, quest_columns}
use resy_snipe.Store.Quests.Refinement.{
  QuestMap, db_run, QuestCall, Represents, get_call, map_run, db_run_refines_map, update_call,
  create_call,
}
use resy_snipe.Prelude.{
  List, String, ◌≢◌, Option, some, ◌++◌, ◌∷◌, ◌≡◌, [], none, str_eq_iff, refl, ◌*◌, true,
}

abbrev my_account : AccountDbRow
my_account = record {
  id = "acct_1";
  user_id = some "usr_1";
  resy_email = "a@b.c";
  display_name = "mine";
  created_ms = 3;
  disabled_ms = none;
}

abbrev pub quest_row_of : String → String → Time → QuestRow
quest_row_of user id at = record {
  id = id;
  user_id = user;
  account_id = "acct_1";
  goal_json = "{}";
  plan_hash = "sha256:0";
  status = booking;
  created_at = at;
  updated_at = at;
  completed_at = none;
}

-- Two quests of one user, stored.
abbrev pub quests : QuestDb
quests = record {
  users = "usr_1" ∷ "usr_2" ∷ [];
  accounts = my_account ∷ [];
  quests =
      quest_columns (quest_row_of "usr_1" "q_1" (5 * millisecond))
      ∷ quest_columns (quest_row_of "usr_1" "q_2" (9 * millisecond))
      ∷ [];
  quest_events = [];
}

abbrev map_of_quests : QuestMap
map_of_quests id = find_quest id quests.quests

quests-Represents : Represents quests.users quests.accounts quests map_of_quests
unfolding find_quest quest_columns
quests-Represents = record {
  same_users = refl;
  same_accounts = refl;
  keyed = (refl, (refl, tt));
  looks = λ id. refl;
}

abbrev some_calls : List QuestCall
some_calls =
    get_call "usr_2" "q_1"
    ∷ update_call "usr_1" "q_1" canceled none (20 * millisecond)
    ∷ create_call (quest_row_of "usr_2" "q_2" 7)
    ∷ get_call "usr_1" "q_1"
    ∷ []

db_run_refines_map_example :
    db_run some_calls quests ≡ map_run quests.users quests.accounts some_calls map_of_quests
db_run_refines_map_example =
    db_run_refines_map quests.users quests.accounts some_calls quests map_of_quests
      quests-Represents

abbrev foreign_writes : List QuestWrite
foreign_writes =
    write_status "usr_2" "q_1" canceled none 30 ∷ write_create (quest_row_of "usr_2" "q_3" 7) ∷ []

foreign : ◌≢◌ {A = String} "usr_2" "usr_1"
foreign e = false≢true ((str_eq_iff "usr_2" "usr_1").1 e)

apply_writes_isolated_example :
    ((id : String)
      → get_quest "usr_1" id (apply_writes foreign_writes quests) ≡ get_quest "usr_1" id quests)
    × ((parse_cursor : String → Option Time) (f : QuestListFilter)
        → list_quests parse_cursor "usr_1" f (apply_writes foreign_writes quests)
          ≡ list_quests parse_cursor "usr_1" f quests)
    × ((id : String) (limit : ℤ)
        → list_quest_events "usr_1" id limit (apply_writes foreign_writes quests)
          ≡ list_quest_events "usr_1" id limit quests)
apply_writes_isolated_example =
    apply_writes_isolated "usr_1" foreign_writes quests (foreign, (foreign, tt))

abbrev every_quest : QuestListFilter
every_quest = record {
  statuses = finding ∷ [];
  account_id = none;
  since = none;
  until = none;
  limit = pos 1;
  cursor = "";
}

abbrev pub dinner_goal : Goal
dinner_goal = record {
  venue_query = some (name_query (codes "Carbone"));
  date = dinner_date;
  party = pos 2;
  time_prefs = record { start = at_clock 19 0 0; end = at_clock 19 0 0; priority = later };
  account_id = "a@b.c";
  constraints = record { table_types = []; any_table = true };
}

-- A codec that knows one goal.
abbrev pub one_json : GoalJson → String
one_json j = "goal"

abbrev pub one_goal : String → Option GoalJson
one_goal t = some (goal_shape dinner_goal)

abbrev new_quest : QuestRow
new_quest = record {
  id = "q_3";
  user_id = "usr_1";
  account_id = "acct_1";
  goal_json = "goal";
  plan_hash = "sha256:0";
  status = expired;
  created_at = 7;
  updated_at = 8;
  completed_at = some 9;
}

abbrev with_new_quest : QuestDb
with_new_quest = record quests { quests = quests.quests ++ quest_columns new_quest ∷ [] }
