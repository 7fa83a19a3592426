-- ===== src/Service/Frame.antt =====
-- What the writes that accompany every call of internal/service leave alone.
use resy_snipe.Domain.Dates.{Time}
use resy_snipe.Service.Errors.{ServiceError}
use resy_snipe.Store.Idempotency.{IdempotencyError, IdempotencyRow}
use resy_snipe.Domain.Snipe.{Event}
use resy_snipe.Prelude.Results.{Result, ok, guard_ok, err, ok_inj}
use resy_snipe.Store.Quests.{write_quest_event, QuestStoreError, QuestDb, find_quest_of}
use resy_snipe.Prelude.{
  Bool, String, if◌then◌else◌, ◌≡◌, Option, refl, true, ◌++◌, List, false, not, ◌∷◌, [], some,
  str_eq, none, ◌||◌, is_none, ap, sym,
}
use resy_snipe.Service.State.{
  ServiceState, audit, record_idempotency, write_event_row, AuditRow, ServiceEnv, write_audit_event,
  keep_db, keep_keys,
}

-- The two states differ in the audit rows at most.
pub record SameButAudit (s s' : ServiceState) : Type 0 where
  pub same_db : s'.quest_db ≡ s.quest_db
  pub same_keys : s'.keys ≡ s.keys
  pub same_engine : s'.engine ≡ s.engine

audit_guard :
    (b : Bool) (row : AuditRow) (s : ServiceState)
    → SameButAudit s (if b then s else record s { audit_rows = s.audit_rows ++ row ∷ [] })
audit_guard true row s = record { same_db = refl; same_keys = refl; same_engine = refl }
audit_guard false row s = record { same_db = refl; same_keys = refl; same_engine = refl }

pub audit-SameButAudit :
    (user action target : String) (f : Option ServiceError) (s : ServiceState)
    → SameButAudit s (audit user action target f s)
unfolding audit write_audit_event
audit-SameButAudit user action target f s = audit_guard _ _ s

-- The two states differ in the recorded keys at most.
pub record SameButKeys (s s' : ServiceState) : Type 0 where
  pub key_same_db : s'.quest_db ≡ s.quest_db
  pub key_same_audit : s'.audit_rows ≡ s.audit_rows
  pub key_same_engine : s'.engine ≡ s.engine

keep_keys-SameButKeys :
    (s : ServiceState) (r : Result IdempotencyError (List IdempotencyRow))
    → SameButKeys s (keep_keys s r)
keep_keys-SameButKeys s (ok rows) = record {
  key_same_db = refl;
  key_same_audit = refl;
  key_same_engine = refl;
}
keep_keys-SameButKeys s (err e) = record {
  key_same_db = refl;
  key_same_audit = refl;
  key_same_engine = refl;
}

key_guard :
    (b : Bool) (s s' : ServiceState) → SameButKeys s s' → SameButKeys s (if b then s else s')
key_guard true s s' h = record { key_same_db = refl; key_same_audit = refl; key_same_engine = refl }
key_guard false s s' h = h

pub record_idempotency-SameButKeys :
    (env : ServiceEnv) (user scope : String) (key : Option String) (payload target : String)
    (f : Option ServiceError) (now : Time) (s : ServiceState)
    → SameButKeys s (record_idempotency env user scope key payload target f now s)
unfolding record_idempotency
record_idempotency-SameButKeys env user scope none payload target f now s = record {
  key_same_db = refl;
  key_same_audit = refl;
  key_same_engine = refl;
}
record_idempotency-SameButKeys env user scope (some key) payload target f now s =
    key_guard (str_eq key "") s _ (keep_keys-SameButKeys s _)

-- The two states differ in the events of quests at most.
pub record SameButEvents (s s' : ServiceState) : Type 0 where
  pub event_same_quests : s'.quest_db.quests ≡ s.quest_db.quests
  pub event_same_keys : s'.keys ≡ s.keys
  pub event_same_audit : s'.audit_rows ≡ s.audit_rows
  pub event_same_engine : s'.engine ≡ s.engine

no_event : (s : ServiceState) → SameButEvents s s
no_event s = record {
  event_same_quests = refl;
  event_same_keys = refl;
  event_same_audit = refl;
  event_same_engine = refl;
}

keep_db-SameButEvents :
    (s : ServiceState) (r : Result QuestStoreError QuestDb)
    → ((db : QuestDb) → r ≡ ok db → db.quests ≡ s.quest_db.quests)
    → SameButEvents s (keep_db s r)
keep_db-SameButEvents s (err e) h = no_event s
keep_db-SameButEvents s (ok db) h = record {
  event_same_quests = h db refl;
  event_same_keys = refl;
  event_same_audit = refl;
  event_same_engine = refl;
}

event_guard :
    (b : Bool) (s s' : ServiceState) → SameButEvents s s' → SameButEvents s (if b then s else s')
event_guard true s s' h = no_event s
event_guard false s s' h = h

write_quest_event-quests :
    (user quest : String) (ev : Event) (db db' : QuestDb)
    → write_quest_event user quest ev db ≡ ok db'
    → db'.quests ≡ db.quests
unfolding write_quest_event
write_quest_event-quests user quest ev db db' h =
    let (given, more) = guard_ok (str_eq user "" || str_eq quest "") _ _ h in
    let (there, last) = guard_ok (is_none (find_quest_of user quest db.quests)) _ _ more in
    ap (λ (d : QuestDb). d.quests) (sym (ok_inj last))

pub write_event_row-SameButEvents :
    (env : ServiceEnv) (user quest : String) (ev : Event) (s : ServiceState)
    → SameButEvents s (write_event_row env user quest ev s)
unfolding write_event_row
write_event_row-SameButEvents env user quest ev s = event_guard (not env.persist_events) s _ (
    keep_db-SameButEvents s (write_quest_event user quest ev s.quest_db)
      (λ db' h. write_quest_event-quests user quest ev s.quest_db db' h))
