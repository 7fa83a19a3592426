-- ===== src/Store/Quests/Tenancy.antt =====
-- Whose rows a call of internal/store/quests.go and quest_events.go can change, and whose it can read.
use resy_snipe.Store.Accounts.{has_account}
use resy_snipe.Store.Idempotency.{to_ms}
use resy_snipe.Prelude.Sorts.{sort_with, sort_by}
use resy_snipe.Domain.Snipe.{Event}
use resy_snipe.Domain.Dates.{Time, ℤ}
use resy_snipe.Domain.Status.{Status}
use resy_snipe.Prelude.{
  List, String, Option, filter, ◌∷◌, str_eq, ◌≡◌, arith, true, ◌≢◌, [], refl, str_eq_iff, All, ◌++◌,
  ap, ◌∙◌, map, sym, filter-filter, Bool, ◌||◌, if◌then◌else◌, false, not, ◌&&◌, is_none,
}
use resy_snipe.Prelude.Results.{Result, ok, err, ◌>>=◌}
use resy_snipe.Store.Quests.Listing.{
  row_matches, QuestListFilter, is_event_of, list_quest_events, list_quests, select_quests,
  cursor_of, limited, event_of_row, scan_all, newer,
}
use resy_snipe.Store.Quests.{
  QuestRow, create_quest, find_quest_of, update_quests, QuestDb, QuestDbRow, QuestEventRow,
  update_quest_status, write_quest_event, is_quest_of, set_status, get_quest, scan_found,
  quest_columns, QuestStoreError, fields_required, has_text, constraint_violated, find_quest,
  quest_not_found,
}

-- What one user's reads depend on.
abbrev pub own_quests : String → QuestDb → List QuestDbRow
own_quests user db = filter (λ r. str_eq r.user_id user) db.quests

abbrev pub own_events : String → QuestDb → List QuestEventRow
own_events user db = filter (λ e. str_eq e.user_id user) db.quest_events

-- The calls that write, each in the name of a user.
pub data QuestWrite : Type 0 where
  write_create : QuestRow → QuestWrite
  write_status : String → String → Status → Option Time → Time → QuestWrite
  write_event : String → String → Event → QuestWrite

abbrev pub writer : QuestWrite → String
writer (write_create q) = q.user_id
writer (write_status user id st c at) = user
writer (write_event user id ev) = user

-- A refused write leaves the tables.
abbrev pub or_else {ℓ} : {E A : Type ℓ} → A → Result E A → A
or_else a (ok b) = b
or_else a (err e) = a

unfoldable pub apply_write : QuestWrite → QuestDb → QuestDb
unfolding create_quest update_quest_status write_quest_event
apply_write (write_create q) db = or_else db (create_quest q db)
apply_write (write_status user id st c at) db = or_else db (update_quest_status user id st c at db)
apply_write (write_event user id ev) db = or_else db (write_quest_event user id ev db)

unfoldable pub apply_writes : List QuestWrite → QuestDb → QuestDb
unfolding apply_write
apply_writes [] db = db
apply_writes (w ∷ ws) db = apply_writes ws (apply_write w db)

find_quest_of-own :
    (user id : String) (rows : List QuestDbRow)
    → find_quest_of user id (filter (λ r. str_eq r.user_id user) rows) ≡ find_quest_of user id rows
unfolding find_quest_of
find_quest_of-own user id [] = refl
find_quest_of-own user id (r ∷ rs) = ground (arith, find_quest_of-own user id rs)

row_matches-own :
    (user : String) (f : QuestListFilter) (before : Option Time) (r : QuestDbRow)
    → row_matches user f before r ≡ true
    → str_eq r.user_id user ≡ true
unfolding row_matches
row_matches-own user f before r h = ground (arith, h)

is_event_of-own :
    (user id : String) (e : QuestEventRow)
    → is_event_of user id e ≡ true
    → str_eq e.user_id user ≡ true
is_event_of-own user id e h = ground (arith, h)

update_quests-other :
    (user other id : String) (st : Status) (c : Option Time) (at : Time) (rows : List QuestDbRow)
    → user ≢ other
    → filter
        (λ r. str_eq r.user_id user)
        (update_quests (is_quest_of other id) (set_status st c at) rows)
      ≡ filter (λ r. str_eq r.user_id user) rows
unfolding update_quests
update_quests-other user other id st c at [] ne = refl
update_quests-other user other id st c at (r ∷ rs) ne = ground (
  arith,
  update_quests-other user other id st c at rs ne,
  str_eq_iff r.user_id user,
  str_eq_iff r.user_id other,
)

-- The rows of the user that two databases share.
record SameOwn (user : String) (db db' : QuestDb) : Type 0 where
  quests_same : own_quests user db ≡ own_quests user db'
  events_same : own_events user db ≡ own_events user db'

append_other :
    {A : Type 0} (owner : A → String) (user : String) (a : A) (xs : List A)
    → owner a ≢ user
    → filter (λ r. str_eq (owner r) user) (xs ++ a ∷ []) ≡ filter (λ r. str_eq (owner r) user) xs
append_other owner user a [] ne = ground (arith, ne, str_eq_iff (owner a) user)
append_other owner user a (x ∷ xs) ne = ground (arith, append_other owner user a xs ne)

-- A guarded write changes no more than the write that it guards.
guard_SameOwn :
    (user : String) (b : Bool) (db : QuestDb) (x y : Result QuestStoreError QuestDb)
    → SameOwn user (or_else db x) db
    → SameOwn user (or_else db y) db
    → SameOwn user (or_else db (if b then x else y)) db
guard_SameOwn user true db x y hx hy = hx
guard_SameOwn user false db x y hx hy = hy

unchanged : (user : String) (db : QuestDb) → SameOwn user db db
unchanged user db = record { quests_same = refl; events_same = refl }

apply_write-SameOwn :
    (user : String) (w : QuestWrite) (db : QuestDb)
    → writer w ≢ user
    → SameOwn user (apply_write w db) db
unfolding apply_write quest_columns
apply_write-SameOwn user (write_create q) db ne =
    guard_SameOwn user (str_eq q.id "" || str_eq q.user_id "" || str_eq q.account_id "") db
      (err fields_required) _ (unchanged user db)
      (guard_SameOwn user
        (not (has_text q.user_id db.users && has_account q.account_id db.accounts)) db
        (err constraint_violated) _ (unchanged user db)
        (guard_SameOwn user (is_none (find_quest q.id db.quests)) db _ (err constraint_violated)
          (record {
            quests_same =
                append_other (λ (r : QuestDbRow). r.user_id) user (quest_columns q) db.quests ne;
            events_same = refl;
          })
          (unchanged user db)))
apply_write-SameOwn user (write_status other id st c at) db ne =
    guard_SameOwn user (is_none (find_quest_of other id db.quests)) db (err quest_not_found) _
      (unchanged user db)
      (record {
        quests_same = update_quests-other user other id st c at db.quests (λ e. ne (sym e));
        events_same = refl;
      })
apply_write-SameOwn user (write_event other id ev) db ne =
    guard_SameOwn user (str_eq other "" || str_eq id "") db (err fields_required) _
      (unchanged user db)
      (guard_SameOwn user (is_none (find_quest_of other id db.quests)) db (err quest_not_found) _
        (unchanged user db)
        (record {
          quests_same = refl;
          events_same =
              append_other (λ (e : QuestEventRow). e.user_id) user
                (record {
                  quest_id = id;
                  user_id = other;
                  kind = ev.kind;
                  at_ms = to_ms ev.at;
                  fields = ev.attrs;
                })
                db.quest_events ne;
        }))

apply_writes-SameOwn :
    (user : String) (ws : List QuestWrite) (db : QuestDb)
    → All (λ w. writer w ≢ user) ws
    → SameOwn user (apply_writes ws db) db
unfolding apply_writes
apply_writes-SameOwn user [] db h = record { quests_same = refl; events_same = refl }
apply_writes-SameOwn user (w ∷ ws) db h =
    let later = apply_writes-SameOwn user ws (apply_write w db) h.1 in
    let first = apply_write-SameOwn user w db h.0 in
    record {
      quests_same = later.quests_same ∙ first.quests_same;
      events_same = later.events_same ∙ first.events_same;
    }

get_quest-own :
    (user id : String) (db : QuestDb)
    → get_quest user id db ≡ scan_found (find_quest_of user id (own_quests user db))
unfolding get_quest
get_quest-own user id db = ap scan_found (sym (find_quest_of-own user id db.quests))

select_quests-own :
    (user : String) (f : QuestListFilter) (before : Option Time) (rows : List QuestDbRow)
    → select_quests user f before (filter (λ r. str_eq r.user_id user) rows)
      ≡ select_quests user f before rows
unfolding select_quests
select_quests-own user f before rows =
    ap (λ rs. limited f.limit (sort_with newer rs))
      (filter-filter (row_matches user f before) (λ r. str_eq r.user_id user) rows
        (row_matches-own user f before))

list_quests-own :
    (parse_cursor : String → Option Time) (user : String) (f : QuestListFilter) (db : QuestDb)
    → list_quests parse_cursor user f (record db { quests = own_quests user db })
      ≡ list_quests parse_cursor user f db
unfolding list_quests
list_quests-own parse_cursor user f db =
    elim (cursor_of parse_cursor f.cursor)
      as (λ c.
        (c >>= λ before. scan_all (select_quests user f before (own_quests user db)))
        ≡ (c >>= λ before. scan_all (select_quests user f before db.quests))) [
          | ok before ↦ ap scan_all (select_quests-own user f before db.quests)
          | err e ↦ refl
        ]

list_quest_events-own :
    (user id : String) (limit : ℤ) (db : QuestDb)
    → list_quest_events user id limit (record db { quest_events = own_events user db })
      ≡ list_quest_events user id limit db
unfolding list_quest_events
list_quest_events-own user id limit db =
    ap (λ es. map event_of_row (limited limit (sort_by (λ (e : QuestEventRow). e.at_ms) es)))
      (filter-filter (is_event_of user id) (λ e. str_eq e.user_id user) db.quest_events
        (is_event_of-own user id))

-- Whatever the other users create, update and record, refused or not, a user reads the same quest under
-- each id, the same lists under each filter, and the same events of each quest as before.
pub apply_writes_isolated :
    (user : String) (ws : List QuestWrite) (db : QuestDb)
    → All (λ w. writer w ≢ user) ws
    → ((id : String) → get_quest user id (apply_writes ws db) ≡ get_quest user id db)
      × ((parse_cursor : String → Option Time) (f : QuestListFilter)
          → list_quests parse_cursor user f (apply_writes ws db)
            ≡ list_quests parse_cursor user f db)
      × ((id : String) (limit : ℤ)
          → list_quest_events user id limit (apply_writes ws db)
            ≡ list_quest_events user id limit db)
unfolding list_quests list_quest_events
apply_writes_isolated user ws db h =
    let same = apply_writes-SameOwn user ws db h in
    (
      λ id.
          get_quest-own user id (apply_writes ws db)
          ∙ ap (λ rs. scan_found (find_quest_of user id rs)) same.quests_same
          ∙ sym (get_quest-own user id db),
      λ parse_cursor f.
          sym (list_quests-own parse_cursor user f (apply_writes ws db))
          ∙ ap
              (λ rs. cursor_of parse_cursor f.cursor >>= λ before.
                scan_all (select_quests user f before rs))
              same.quests_same
          ∙ list_quests-own parse_cursor user f db,
      λ id limit.
          sym (list_quest_events-own user id limit (apply_writes ws db))
          ∙ ap
              (λ es. map event_of_row (
                limited limit
                  (sort_by (λ (e : QuestEventRow). e.at_ms) (filter (is_event_of user id) es))))
              same.events_same
          ∙ list_quest_events-own user id limit db,
    )
