-- ===== src/Store/Quests/Refinement.antt =====
-- What internal/store/quests.go promises: the table quests behaves as a map from ids to rows, each
-- with one owner, whatever the order and the number of the rows in it.
use resy_snipe.Store.Accounts.{AccountDbRow, has_account}
use resy_snipe.Store.Quests.Lookup.{
  IsKeyed, append-IsKeyed, find_quest_of-keyed, owned, find_quest-append, update_quests-IsKeyed,
  find_quest-update,
}
use resy_snipe.Domain.Dates.{Time}
use resy_snipe.Domain.Status.{Status}
use resy_snipe.Prelude.Results.{Result, err, ok}
use resy_snipe.Prelude.{
  List, String, Option, ◌∷◌, if◌then◌else◌, some, ◌≡◌, Bool-cases, none, str_eq, [], inl, ◌||◌, inr,
  refl, ◌&&◌, is_none, ◌++◌, ◌∙◌, ap, Option-cases, not,
}
use resy_snipe.Store.Quests.{
  QuestRow, create_quest, find_quest, quest_columns, QuestDb, QuestDbRow, QuestStoreError,
  find_quest_of, get_quest, scan_found, update_quest_status, quest_not_found, set_status,
  fields_required, has_text, constraint_violated,
}

-- The map.
abbrev pub QuestMap : Type 0
QuestMap = String → Option QuestDbRow

abbrev put : String → QuestDbRow → QuestMap → QuestMap
put id r m j = if str_eq j id then some r else m j

-- The calls, with the arguments that the functions of the store take.
pub data QuestCall : Type 0 where
  create_call : QuestRow → QuestCall
  get_call : String → String → QuestCall
  update_call : String → String → Status → Option Time → Time → QuestCall

abbrev pub Answer : Type 0
Answer = Result QuestStoreError (Option QuestRow)

abbrev written : {S : Type 0} → S → Result QuestStoreError S → Answer × S
written s (err e) = (err e, s)
written s (ok s') = (ok none, s')

abbrev read : Result QuestStoreError QuestRow → Answer
read (err e) = err e
read (ok q) = ok (some q)

unfoldable pub db_call : QuestCall → QuestDb → Answer × QuestDb
unfolding create_quest get_quest update_quest_status
db_call (create_call q) db = written db (create_quest q db)
db_call (get_call user id) db = (read (get_quest user id db), db)
db_call (update_call user id st completed at) db =
    written db (update_quest_status user id st completed at db)

-- The same calls on the map; the users and the accounts are those of the database.
unfoldable map_create :
    List String → List AccountDbRow → QuestRow → QuestMap → Result QuestStoreError QuestMap
unfolding quest_columns
map_create users accounts q m =
    if str_eq q.id "" || str_eq q.user_id "" || str_eq q.account_id ""
    then err fields_required
    else if not (has_text q.user_id users && has_account q.account_id accounts)
    then err constraint_violated
    else if is_none (m q.id)
    then ok (put q.id (quest_columns q) m)
    else err constraint_violated

abbrev map_update_owned :
    String
    → Status
    → Option Time
    → Time
    → QuestMap
    → Option QuestDbRow
    → Result QuestStoreError QuestMap
map_update_owned id st completed at m none = err quest_not_found
map_update_owned id st completed at m (some r) = ok (put id (set_status st completed at r) m)

unfoldable pub map_call : List String → List AccountDbRow → QuestCall → QuestMap → Answer × QuestMap
unfolding map_create
map_call users accounts (create_call q) m = written m (map_create users accounts q m)
map_call users accounts (get_call user id) m = (read (scan_found (owned user (m id))), m)
map_call users accounts (update_call user id st completed at) m =
    written m (map_update_owned id st completed at m (owned user (m id)))

-- The answers to a run of calls.
unfoldable pub db_run : List QuestCall → QuestDb → List Answer
unfolding db_call
db_run [] db = []
db_run (c ∷ cs) db = let (a, db') = db_call c db in a ∷ db_run cs db'

unfoldable pub map_run : List String → List AccountDbRow → List QuestCall → QuestMap → List Answer
unfolding map_call
map_run users accounts [] m = []
map_run users accounts (c ∷ cs) m =
    let (a, m') = map_call users accounts c m in a ∷ map_run users accounts cs m'

-- The database holds what the map says.
pub record Represents (users : List String) (accounts : List AccountDbRow) (db : QuestDb)
    (m : QuestMap) : Type 0 where
  pub same_users : db.users ≡ users
  pub same_accounts : db.accounts ≡ accounts
  pub keyed : IsKeyed db.quests
  pub looks : (id : String) → find_quest id db.quests ≡ m id

-- Both sides refuse with one error, or both go on and still agree.
data Agree (users : List String) (accounts : List AccountDbRow)
    : Result QuestStoreError QuestDb → Result QuestStoreError QuestMap → Type 0 where
  both_refuse : (e : QuestStoreError) → Agree users accounts (err e) (err e)
  both_write :
      {db : QuestDb} {m : QuestMap}
      → Represents users accounts db m
      → Agree users accounts (ok db) (ok m)

written-Agree :
    (users : List String) (accounts : List AccountDbRow) (db : QuestDb) (m : QuestMap)
    (x : Result QuestStoreError QuestDb) (y : Result QuestStoreError QuestMap)
    → Represents users accounts db m
    → Agree users accounts x y
    → ((written db x).0 ≡ (written m y).0)
      × Represents users accounts (written db x).1 (written m y).1
written-Agree users accounts db m _ _ h (both_refuse e) = (refl, h)
written-Agree users accounts db m _ _ h (both_write after) = (refl, after)

create_quest-Represents :
    (users : List String) (accounts : List AccountDbRow) (q : QuestRow) (db : QuestDb)
    (m : QuestMap)
    → Represents users accounts db m
    → m q.id ≡ none
    → Represents users accounts
        (record db {
          users = users;
          accounts = accounts;
          quests = db.quests ++ quest_columns q ∷ [];
        })
        (put q.id (quest_columns q) m)
unfolding quest_columns
create_quest-Represents users accounts q db m h new = record {
  same_users = refl;
  same_accounts = refl;
  keyed = append-IsKeyed (quest_columns q) db.quests (h.looks q.id ∙ new) h.keyed;
  looks = λ j.
      find_quest-append j (quest_columns q) db.quests (h.looks q.id ∙ new)
      ∙ ap (λ o. if str_eq j q.id then some (quest_columns q) else o) (h.looks j);
}

create_quest-Agree :
    (users : List String) (accounts : List AccountDbRow) (q : QuestRow) (db : QuestDb)
    (m : QuestMap)
    → Represents users accounts db m
    → Agree users accounts (create_quest q db) (map_create users accounts q m)
unfolding create_quest map_create
create_quest-Agree users accounts q db m h =
    rw (h.same_users, h.same_accounts, h.looks q.id)
      (elim (Bool-cases (str_eq q.id "" || str_eq q.user_id "" || str_eq q.account_id "")) [
        | inl blank ↦ rw blank (both_refuse fields_required)
        | inr given ↦
            elim (Bool-cases
              (not (has_text q.user_id users && has_account q.account_id accounts))) [
                | inl unknown ↦ rw (given, unknown) (both_refuse constraint_violated)
                | inr known ↦ elim (Option-cases (m q.id)) [
                  | inl new ↦
                      rw (given, known, new)
                        (both_write (create_quest-Represents users accounts q db m h new))
                  | inr (r, taken) ↦ rw (given, known, taken) (both_refuse constraint_violated)
                ]
              ]
      ])

update_quest_status-Agree :
    (users : List String) (accounts : List AccountDbRow) (user id : String) (st : Status)
    (c : Option Time) (at : Time) (db : QuestDb) (m : QuestMap)
    → Represents users accounts db m
    → Agree users accounts
        (update_quest_status user id st c at db)
        (map_update_owned id st c at m (owned user (m id)))
unfolding update_quest_status
update_quest_status-Agree users accounts user id st c at db m h =
    let reads : find_quest_of user id db.quests ≡ owned user (m id) =
      find_quest_of-keyed user id db.quests h.keyed ∙ ap (owned user) (h.looks id) in
    elim (Option-cases (owned user (m id))) [
      | inl missing ↦ rw (reads, missing) (both_refuse quest_not_found)
      | inr (r, found) ↦
          rw (reads, found)
            (both_write (record {
              same_users = h.same_users;
              same_accounts = h.same_accounts;
              keyed = update_quests-IsKeyed user id st c at db.quests h.keyed;
              looks = λ j.
                  find_quest-update user id j st c at db.quests r h.keyed (reads ∙ found)
                  ∙ ap (λ o. if str_eq j id then some (set_status st c at r) else o) (h.looks j);
            }))
    ]

-- One call answers the same on both sides, and the sides still agree after it.
db_call-Represents :
    (users : List String) (accounts : List AccountDbRow) (c : QuestCall) (db : QuestDb)
    (m : QuestMap)
    → Represents users accounts db m
    → ((db_call c db).0 ≡ (map_call users accounts c m).0)
      × Represents users accounts (db_call c db).1 (map_call users accounts c m).1
unfolding db_call map_call
db_call-Represents users accounts (create_call q) db m h =
    written-Agree users accounts db m (create_quest q db) (map_create users accounts q m) h
      (create_quest-Agree users accounts q db m h)
db_call-Represents users accounts (get_call user id) db m h = (
  ap (λ o. read (scan_found o))
      (find_quest_of-keyed user id db.quests h.keyed ∙ ap (owned user) (h.looks id)),
  h,
)
db_call-Represents users accounts (update_call user id st c at) db m h =
    written-Agree users accounts db m (update_quest_status user id st c at db)
      (map_update_owned id st c at m (owned user (m id))) h
      (update_quest_status-Agree users accounts user id st c at db m h)

-- A database that holds what a map says answers every run of creations, reads and status updates, by
-- any users, as the map does: the table implements a map from quest ids to rows, in which a read or
-- an update finds a quest under its owner only.
pub db_run_refines_map :
    (users : List String) (accounts : List AccountDbRow) (calls : List QuestCall) (db : QuestDb)
    (m : QuestMap)
    → Represents users accounts db m
    → db_run calls db ≡ map_run users accounts calls m
unfolding db_run map_run
db_run_refines_map users accounts [] db m h = refl
db_run_refines_map users accounts (c ∷ cs) db m h =
    let (same, still) = db_call-Represents users accounts c db m h in
    simp
      (
        same,
        db_run_refines_map users accounts cs (db_call c db).1 (map_call users accounts c m).1 still,
      )
      refl
