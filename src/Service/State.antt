-- ===== src/Service/State.antt =====
-- What a call of internal/service works with, and the writes that every call makes: audit and
-- writeQuestEvent of audit.go, recordIdempotency and the first part of CreateQuest and CancelQuest of
-- standard_quest.go. A failure of one of these writes is logged only, so it leaves no trace here.
use resy_snipe.Store.Tokens.{TokenDbRow}
use resy_snipe.Store.Accounts.{AccountError}
use resy_snipe.Planner.Build.{PlanError}
use resy_snipe.Store.Quests.GoalCodec.{GoalJson, GoalCodecError}
use resy_snipe.Providers.{ProviderError, Calendar}
use resy_snipe.Domain.Intent.{Venue, VenueRef}
use resy_snipe.Domain.Goal.{VenueQuery, GoalError}
use resy_snipe.Prelude.Texts.{Text}
use resy_snipe.Domain.Snipe.{Event}
use resy_snipe.Store.Idempotency.{
  IdempotencyError, IdempotencyLookup, IdempotencyRow, nullable_text, put_idempotency_result,
  get_idempotency_result,
}
use resy_snipe.Domain.Dates.{Time, minute, Location, Date, ℤ}
use resy_snipe.Engine.World.{Env, World, EngineError}
use resy_snipe.Domain.Plan.{Formats}
use resy_snipe.Service.Errors.{error_code_for, ServiceError, replay_service_err, ResolverError}
use resy_snipe.Store.Quests.{QuestDb, write_quest_event, has_text, QuestStoreError}
use resy_snipe.Prelude.{
  Option, String, if◌then◌else◌, ℕ, Bool, List, some, str_eq, ◌*◌, none, not, ◌||◌, is_none, ◌∷◌,
  [], ◌&&◌, ◌++◌,
}
use resy_snipe.Prelude.Results.{Result, err, ok}

-- `resolve` is the resolver, `calendar` the provider's calendar where there is a provider, `to_json`
-- and `of_json` are json.Marshal and json.Unmarshal of the goal's shape, `quote` is %q, and the texts
-- are what Error() gives of the errors of other packages.
pub record ServiceEnv : Type 0 where
  pub formats : Formats
  pub engine_env : Env
  pub hostname : Text → Option Text
  pub utc : Location
  pub resolve : Option VenueQuery → Result ResolverError Venue
  pub calendar : Option (VenueRef → Date → ℤ → Result ProviderError Calendar)
  pub to_json : GoalJson → String
  pub of_json : String → Option GoalJson
  pub parse_cursor : String → Option Time
  pub persist_events : Bool
  pub quote : String → String
  pub goal_error_text : GoalError → String
  pub plan_error_text : PlanError → String
  pub store_error_text : QuestStoreError → String
  pub account_error_text : AccountError → String
  pub key_error_text : IdempotencyError → String
  pub codec_error_text : GoalCodecError → String
  pub engine_error_text : EngineError → String

-- A row of audit_events; NULL is `none`.
pub record AuditRow : Type 0 where
  pub user_id : String
  pub action : String
  pub target_id : Option String
  pub passed : Bool
  pub error_code : Option String

pub record ServiceState : Type 0 where
  pub quest_db : QuestDb
  pub keys : List IdempotencyRow
  pub audit_rows : List AuditRow
  pub token_rows : List TokenDbRow
  pub engine : World

abbrev code_or_none : Option ServiceError → Option String
code_or_none none = none
code_or_none (some e) = some (error_code_for e.kind)

-- WriteAuditEvent of internal/store/audit.go: the actor must be a user.
unfoldable pub write_audit_event : AuditRow → ServiceState → ServiceState
write_audit_event row s =
    if str_eq row.user_id "" || str_eq row.action "" || not (has_text row.user_id s.quest_db.users)
    then s
    else record s { audit_rows = s.audit_rows ++ row ∷ [] }

-- Standard.audit.
unfoldable pub audit : String → String → String → Option ServiceError → ServiceState → ServiceState
unfolding write_audit_event error_code_for
audit user action target failure s =
    write_audit_event
      (record {
        user_id = user;
        action = action;
        target_id = nullable_text target;
        passed = is_none failure;
        error_code = code_or_none failure;
      })
      s

abbrev pub keep_db : ServiceState → Result QuestStoreError QuestDb → ServiceState
keep_db s (err e) = s
keep_db s (ok db) = record s { quest_db = db }

-- Standard.writeQuestEvent.
unfoldable pub write_event_row : ServiceEnv → String → String → Event → ServiceState → ServiceState
write_event_row env user quest ev s =
    if not env.persist_events then s else keep_db s (write_quest_event user quest ev s.quest_db)

-- idempotencyTTL.
abbrev pub idempotency_ttl : ℕ
idempotency_ttl = 24 * 60 * minute

abbrev pub payload_hash_for : ServiceEnv → String → String
payload_hash_for env payload = env.formats.sha256_hex payload

abbrev pub text_of_failure : Option ServiceError → Option String
text_of_failure none = none
text_of_failure (some e) = some e.text

abbrev pub keep_keys : ServiceState → Result IdempotencyError (List IdempotencyRow) → ServiceState
keep_keys s (err e) = s
keep_keys s (ok rows) = record s { keys = rows }

abbrev pub record_given :
    ServiceEnv
    → String
    → String
    → String
    → String
    → Option ServiceError
    → Time
    → ServiceState
    → String
    → ServiceState
record_given env user scope payload target failure now s key =
    if str_eq key ""
    then s
    else keep_keys s (
        put_idempotency_result env.formats.sha256_hex user scope key payload target
          (text_of_failure failure) idempotency_ttl now s.keys)

-- recordIdempotency; without a key, or with an empty one, it does nothing.
unfoldable pub record_idempotency :
    ServiceEnv
    → String
    → String
    → Option String
    → String
    → String
    → Option ServiceError
    → Time
    → ServiceState
    → ServiceState
record_idempotency env user scope none payload target failure now s = s
record_idempotency env user scope (some key) payload target failure now s =
    record_given env user scope payload target failure now s key

-- What a call with a key finds: nothing that counts, or the answer to give without doing it again.
pub data Gate : Type 0 where
  proceed : Gate
  answered : String → Option ServiceError → Gate

abbrev pub target_or_empty : Option String → String
target_or_empty none = ""
target_or_empty (some t) = t

abbrev pub replay : String → Option String → Gate
replay target none = answered target none
replay target (some e) =
    if str_eq e "" then answered target none else answered target (some (replay_service_err e))

-- The conditions on a lookup; `conflicting` is the error for another payload under the same key.
abbrev pub on_lookup :
    (String → ServiceError)
    → (IdempotencyLookup → ServiceError)
    → Result IdempotencyError IdempotencyLookup
    → (IdempotencyError → String)
    → Gate
on_lookup failing conflicting (err e) text = answered "" (some (failing (text e)))
on_lookup failing conflicting (ok l) text =
    if l.found && not l.expired
    then (if not l.payload_match
        then answered "" (some (conflicting l))
        else replay (target_or_empty l.target) l.err_text)
    else proceed

abbrev pub gate_given :
    ServiceEnv
    → String
    → String
    → String
    → Time
    → (String → ServiceError)
    → (String → IdempotencyLookup → ServiceError)
    → ServiceState
    → String
    → Gate
gate_given env user scope payload now failing conflicting s key =
    if str_eq key ""
    then proceed
    else on_lookup failing (conflicting key)
        (get_idempotency_result env.formats.sha256_hex user scope key payload now s.keys)
        env.key_error_text

-- The pre-check of CreateQuest and of CancelQuest.
unfoldable pub idempotency_gate :
    ServiceEnv
    → String
    → String
    → Option String
    → String
    → Time
    → (String → ServiceError)
    → (String → IdempotencyLookup → ServiceError)
    → ServiceState
    → Gate
idempotency_gate env user scope none payload now failing conflicting s = proceed
idempotency_gate env user scope (some key) payload now failing conflicting s =
    gate_given env user scope payload now failing conflicting s key
