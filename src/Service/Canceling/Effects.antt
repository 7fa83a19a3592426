-- ===== src/Service/Canceling/Effects.antt =====
-- What CancelQuest of internal/service/standard_quest.go does to the quests.
use resy_snipe.Store.Idempotency.{to_ms}
use resy_snipe.Prelude.Results.{ok, err≢ok, bind_ok, ok_inj}
use resy_snipe.Service.Frame.{
  record_idempotency-SameButKeys, audit-SameButAudit, write_event_row-SameButEvents,
}
use resy_snipe.Service.Canceling.{
  cancel_quest, CancelCall, cancel_gate, audit_canceled, after_row, finish_cancel, after_update,
  scope_cancel_quest, canceled_at, action_quest_cancel,
}
use mathlib.Core.Option.{some_inj}
use resy_snipe.Domain.Dates.{Time, millisecond}
use resy_snipe.Service.Errors.{ServiceError}
use resy_snipe.Domain.Status.{Status, canceled, is_terminal}
use resy_snipe.Prelude.{
  String, Option, ◌≡◌, arith, List, some, ◌≢◌, ◌∷◌, Bool-cases, str_eq_iff, [], inl, inr, refl, sym,
  str_eq, false, none, true, ◌*◌, ◌∙◌, ap, subst,
}
use resy_snipe.Store.Quests.{
  find_quest_of, update_quests, QuestDbRow, is_quest_of, set_status, get_quest, QuestRow,
  scan_quest_row, update_quest_status, QuestDb, scan_found, status_db_string, parse_status_db,
}
use resy_snipe.Service.State.{write_event_row, ServiceEnv, ServiceState, proceed, payload_hash_for}

find_quest_of-update :
    (user id : String) (st : Status) (c : Option Time) (at : Time) (rows : List QuestDbRow)
    (r : QuestDbRow)
    → find_quest_of user id rows ≡ some r
    → find_quest_of user id (update_quests (is_quest_of user id) (set_status st c at) rows)
      ≡ some (set_status st c at r)
unfolding find_quest_of update_quests
find_quest_of-update user id st c at [] r h = cc
find_quest_of-update user id st c at (x ∷ xs) r h = elim (Bool-cases (is_quest_of user id x)) [
  | inl hit ↦
      let found : x ≡ r = some_inj.0 (ground (arith, hit, h)) in rw (hit, hit, sym found) refl
  | inr miss ↦
      let later : find_quest_of user id xs ≡ some r = ground (arith, miss, h) in
      rw (miss, miss) (find_quest_of-update user id st c at xs r later)
]

find_quest_of-update_other :
    (user id user' id' : String) (st : Status) (c : Option Time) (at : Time)
    (rows : List QuestDbRow)
    → id' ≢ id
    → find_quest_of user' id' (update_quests (is_quest_of user id) (set_status st c at) rows)
      ≡ find_quest_of user' id' rows
unfolding find_quest_of update_quests
find_quest_of-update_other user id user' id' st c at [] ne = refl
find_quest_of-update_other user id user' id' st c at (x ∷ xs) ne = ground (
  arith,
  find_quest_of-update_other user id user' id' st c at xs ne,
  str_eq_iff x.id id,
  str_eq_iff x.id id',
)

cancel_quest-runs :
    (env : ServiceEnv) (c : CancelCall) (s : ServiceState)
    → str_eq c.user "" ≡ false
    → cancel_gate env c s ≡ proceed
    → cancel_quest env c s
      ≡ audit_canceled c (after_row env c s (get_quest c.user c.quest s.quest_db))
unfolding cancel_quest
cancel_quest-runs env c s named free = simp (named, free) refl

scan_found-ok :
    (o : Option QuestDbRow) (row : QuestRow)
    → scan_found o ≡ ok row
    → (r : QuestDbRow) × (o ≡ some r) × (scan_quest_row r ≡ ok row)
scan_found-ok none row h = absurd (err≢ok h)
scan_found-ok (some r) row h = (r, refl, h)

get_quest-found :
    (user id : String) (db : QuestDb) (row : QuestRow)
    → get_quest user id db ≡ ok row
    → (r : QuestDbRow) × (find_quest_of user id db.quests ≡ some r) × (scan_quest_row r ≡ ok row)
unfolding get_quest
get_quest-found user id db row h = scan_found-ok (find_quest_of user id db.quests) row h

-- The row of a quest that was canceled at an instant.
abbrev pub canceled_row : QuestRow → Time → QuestRow
canceled_row row now = record row {
  status = canceled;
  updated_at = to_ms now * millisecond;
  completed_at = some (to_ms now * millisecond);
}

scan_quest_row-canceled :
    (r : QuestDbRow) (row : QuestRow) (now : Time)
    → scan_quest_row r ≡ ok row
    → scan_quest_row (set_status canceled (some now) now r) ≡ ok (canceled_row row now)
unfolding scan_quest_row status_db_string parse_status_db
scan_quest_row-canceled r row now h =
    let (st, parsed, made) = bind_ok (parse_status_db r.status) _ h in
    ap (λ (q : QuestRow). ok (canceled_row q now)) (ok_inj made)

-- How a CancelQuest of a quest that the user owns ends.
pub data CancelEnd (c : CancelCall) (s : ServiceState) (row : QuestRow) (s' : ServiceState)
    : Type 0 where
  already_over : is_terminal row.status ≡ true → s'.quest_db ≡ s.quest_db → CancelEnd c s row s'
  now_canceled :
      is_terminal row.status ≡ false
      → get_quest c.user c.quest s'.quest_db ≡ ok (canceled_row row c.now)
      → ((user id : String)
          → id ≢ c.quest
          → get_quest user id s'.quest_db ≡ get_quest user id s.quest_db)
      → CancelEnd c s row s'

-- The record under the key and the audit row leave the quests and the engine.
finish_cancel-frame :
    (env : ServiceEnv) (c : CancelCall) (f : Option ServiceError) (s : ServiceState)
    → let out = audit_canceled c (finish_cancel env c f s) in
      (out.0 ≡ f) × (out.1.quest_db ≡ s.quest_db) × (out.1.engine ≡ s.engine)
unfolding finish_cancel
finish_cancel-frame env c f s =
    let kept =
      record_idempotency-SameButKeys env c.user scope_cancel_quest c.key
        (payload_hash_for env c.quest) c.quest f c.now s in
    let logged =
      audit-SameButAudit c.user action_quest_cancel c.quest f (finish_cancel env c f s).1 in
    (refl, logged.same_db ∙ kept.key_same_db, logged.same_engine ∙ kept.key_same_engine)

update_quest_status-found :
    (user id : String) (st : Status) (finished : Option Time) (at : Time) (db : QuestDb)
    (r : QuestDbRow)
    → find_quest_of user id db.quests ≡ some r
    → update_quest_status user id st finished at db
      ≡ ok (record db {
        quests = update_quests (is_quest_of user id) (set_status st finished at) db.quests;
      })
unfolding update_quest_status
update_quest_status-found user id st finished at db r h = rw h refl

update_ends :
    (env : ServiceEnv) (c : CancelCall) (s : ServiceState) (row : QuestRow) (r : QuestDbRow)
    → is_terminal row.status ≡ false
    → find_quest_of c.user c.quest s.quest_db.quests ≡ some r
    → scan_quest_row r ≡ ok row
    → let rows =
        update_quests
          (is_quest_of c.user c.quest)
          (set_status canceled (some c.now) c.now)
          s.quest_db.quests in
      let out =
        audit_canceled c (after_update env c s (ok (record s.quest_db { quests = rows }))) in
      (out.0 ≡ none) × (out.1.engine ≡ s.engine) × CancelEnd c s row out.1
unfolding get_quest
update_ends env c s row r live there scanned =
    let rows =
      update_quests (is_quest_of c.user c.quest) (set_status canceled (some c.now) c.now)
        s.quest_db.quests in
    let s1 : ServiceState = record s { quest_db = record s.quest_db { quests = rows } } in
    let s2 = write_event_row env c.user c.quest (canceled_at c) s1 in
    let (answer, same_db, same_engine) = finish_cancel-frame env c none s2 in
    let evented = write_event_row-SameButEvents env c.user c.quest (canceled_at c) s1 in
    let quests = ap (λ (d : QuestDb). d.quests) same_db ∙ evented.event_same_quests in
    (
      answer,
      same_engine ∙ evented.event_same_engine,
      now_canceled live
          (ap (λ rs. scan_found (find_quest_of c.user c.quest rs)) quests
            ∙ ap scan_found (
                find_quest_of-update c.user c.quest canceled (some c.now) c.now s.quest_db.quests r
                  there)
            ∙ scan_quest_row-canceled r row c.now scanned)
          (λ user id ne.
            ap (λ rs. scan_found (find_quest_of user id rs)) quests
            ∙ ap scan_found (
                find_quest_of-update_other c.user c.quest user id canceled (some c.now) c.now
                  s.quest_db.quests ne)),
    )

-- CancelQuest of a quest that the user owns, not answered from an earlier call with the key, succeeds. A
-- quest that is over keeps its row; any other becomes canceled and completed at that instant, and the
-- other quests stay. The engine is left as it was in both cases: the snipe goes on.
pub cancel_quest_ends :
    (env : ServiceEnv) (c : CancelCall) (s : ServiceState) (row : QuestRow)
    → str_eq c.user "" ≡ false
    → cancel_gate env c s ≡ proceed
    → get_quest c.user c.quest s.quest_db ≡ ok row
    → ((cancel_quest env c s).0 ≡ none)
      × ((cancel_quest env c s).1.engine ≡ s.engine)
      × CancelEnd c s row (cancel_quest env c s).1
cancel_quest_ends env c s row named free got =
    let (r, there, scanned) = get_quest-found c.user c.quest s.quest_db row got in
    let runs =
      cancel_quest-runs env c s named free ∙ ap (λ g. audit_canceled c (after_row env c s g)) got in
    subst
      (λ (out : Option ServiceError × ServiceState).
        (out.0 ≡ none) × (out.1.engine ≡ s.engine) × CancelEnd c s row out.1)
      (sym runs)
      (elim (Bool-cases (is_terminal row.status)) [
        | inl over ↦
            let (answer, same_db, same_engine) = finish_cancel-frame env c none s in
            rw over (answer, same_engine, already_over over same_db)
        | inr live ↦
            rw
              (
                live,
                update_quest_status-found c.user c.quest canceled (some c.now) c.now s.quest_db r
                    there,
              )
              (update_ends env c s row r live there scanned)
      ])
