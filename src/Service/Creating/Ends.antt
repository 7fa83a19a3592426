-- ===== src/Service/Creating/Ends.antt =====
-- How CreateQuest of internal/service/standard_quest.go ends, whatever of its steps fails.
use resy_snipe.Store.Quests.ReadBack.{create_quest-ok}
use resy_snipe.Engine.Transition.{submit}
use resy_snipe.Planner.Strategy.{Note}
use resy_snipe.Store.Quests.{QuestDbRow, QuestStoreError, QuestDb, create_quest, quest_columns}
use resy_snipe.Domain.Dates.{Time}
use resy_snipe.Service.Frame.{
  SameButAudit, audit-SameButAudit, write_event_row-SameButEvents, record_idempotency-SameButKeys,
}
use resy_snipe.Engine.World.{EngineError, Outcome, World}
use resy_snipe.Service.Errors.{ServiceError}
use resy_snipe.Domain.Plan.{Plan}
use resy_snipe.Domain.Goal.{Goal}
use resy_snipe.Prelude.{
  String, List, Option, str_eq, Bool-cases, some, ◌≡◌, false, inl, none, subst, inr, sym, ◌++◌,
  refl, ◌∷◌, [], ◌∙◌, Bool, if◌then◌else◌, ap, true,
}
use resy_snipe.Prelude.Results.{Result, ok, err}
use resy_snipe.Service.State.{ServiceEnv, ServiceState, proceed, write_event_row, payload_hash_for}
use resy_snipe.Service.Planning.{plan_quest, action_quest_plan}
use resy_snipe.Service.Creating.{
  create, finish, CreateCall, Created, after_gate, after_plan, hash_differs, after_account,
  after_mint, create_gate, hash_mismatch, audit_created, intent_from_plan, new_quest_row,
  quest_account, after_insert, after_submit, submitted_at, action_quest_create, mint_failed,
  persist_failed, submit_failed, scope_create_quest, goal_text,
}

-- The error that the answer of the engine becomes.
abbrev pub engine_failure : ServiceEnv → Result EngineError (Unit {0}) → Option ServiceError
engine_failure env (ok done) = none
engine_failure env (err e) = some (submit_failed env e)

-- The two ends: an error, and no quest and no call of the engine; or one new row, for a plan whose hash
-- is the approved one, if one was approved, and the engine's answer to the snipe of the same id.
pub data CreateEnd (env : ServiceEnv) (c : CreateCall) (qs : List QuestDbRow) (w : World)
    : Created → List QuestDbRow → World → Type 0 where
  nothing_stored : (e : ServiceError) → CreateEnd env c qs w ("", some e) qs w
  quest_stored :
      (p : Plan Note) (account id : String) (r : Result EngineError (Unit {0})) (w' : World)
      → c.minted ≡ ok id
      → hash_differs c.opts.plan_hash p.hash ≡ false
      → submit env.engine_env id (intent_from_plan c.user p c.goal) w ≡ (r, w')
      → CreateEnd env c qs w
          (id, engine_failure env r)
          (qs ++ quest_columns (new_quest_row env c p account id) ∷ [])
          w'

-- The steps after the look-up end by recording the outcome under the key.
pub record Finishes (env : ServiceEnv) (c : CreateCall) (s : ServiceState)
    (out : Created × ServiceState) : Type 0 where
  pub last : ServiceState
  pub ends : finish env c out.0.0 out.0.1 last ≡ out
  pub keys_kept : last.keys ≡ s.keys
  pub stored : CreateEnd env c s.quest_db.quests s.engine out.0 last.quest_db.quests last.engine

moved :
    {env : ServiceEnv} {c : CreateCall} {qs qs' qs'' : List QuestDbRow} {w w' w'' : World}
    {a : Created}
    → CreateEnd env c qs w a qs' w'
    → qs'' ≡ qs'
    → w'' ≡ w'
    → CreateEnd env c qs w a qs'' w''
moved {env = env} {c = c} {qs = qs} {qs'' = qs''} {w = w} {w' = w'} {a = a} h e e' =
    subst (λ v. CreateEnd env c qs w a qs'' v) (sym e')
      (subst (λ q. CreateEnd env c qs w a q w') (sym e) h)

-- A step that fails before the row is written.
failed_early :
    (env : ServiceEnv) (c : CreateCall) (e : ServiceError) (s s0 : ServiceState)
    → SameButAudit s s0
    → Finishes env c s (finish env c "" (some e) s0)
unfolding finish
failed_early env c e s s0 same = record {
  last = s0;
  ends = refl;
  keys_kept = same.same_keys;
  stored = moved (nothing_stored e) (ap (λ (d : QuestDb). d.quests) same.same_db) same.same_engine;
}

after_submit-Finishes :
    (env : ServiceEnv) (c : CreateCall) (p : Plan Note) (account id : String) (s s0 : ServiceState)
    (out : Outcome)
    → c.minted ≡ ok id
    → hash_differs c.opts.plan_hash p.hash ≡ false
    → submit env.engine_env id (intent_from_plan c.user p c.goal) s.engine ≡ out
    → s0.keys ≡ s.keys
    → s0.quest_db.quests
      ≡ s.quest_db.quests ++ quest_columns (new_quest_row env c p account id) ∷ []
    → Finishes env c s (after_submit env c id s0 out)
unfolding finish
after_submit-Finishes env c p account id s s0 (ok done, w) minted approved answer keys rows =
    let s1 : ServiceState = record s0 { engine = w } in
    let evented = write_event_row-SameButEvents env c.user id (submitted_at c.now) s1 in
    record {
      last = write_event_row env c.user id (submitted_at c.now) s1;
      ends = refl;
      keys_kept = evented.event_same_keys ∙ keys;
      stored =
          moved (quest_stored p account id (ok done) w minted approved answer)
            (evented.event_same_quests ∙ rows) evented.event_same_engine;
    }
after_submit-Finishes env c p account id s s0 (err e, w) minted approved answer keys rows = record {
  last = record s0 { engine = w };
  ends = refl;
  keys_kept = keys;
  stored = moved (quest_stored p account id (err e) w minted approved answer) rows refl;
}

after_insert-Finishes :
    (env : ServiceEnv) (c : CreateCall) (p : Plan Note) (account id : String) (s s0 : ServiceState)
    (r : Result QuestStoreError QuestDb)
    → c.minted ≡ ok id
    → hash_differs c.opts.plan_hash p.hash ≡ false
    → create_quest (new_quest_row env c p account id) s0.quest_db ≡ r
    → SameButAudit s s0
    → Finishes env c s (after_insert env c p id s0 r)
after_insert-Finishes env c p account id s s0 (err e) minted approved inserted same =
    failed_early env c (persist_failed env e) s s0 same
after_insert-Finishes env c p account id s s0 (ok db) minted approved inserted same =
    let (new, after) = create_quest-ok (new_quest_row env c p account id) s0.quest_db db inserted in
    after_submit-Finishes env c p account id s (record s0 { quest_db = db }) _ minted approved
      (ap (λ w. submit env.engine_env id (intent_from_plan c.user p c.goal) w)
        (sym same.same_engine))
      same.same_keys
      (ap (λ (d : QuestDb). d.quests) (sym after)
        ∙ ap (λ (d : QuestDb). d.quests ++ quest_columns (new_quest_row env c p account id) ∷ [])
            same.same_db)

after_mint-Finishes :
    (env : ServiceEnv) (c : CreateCall) (p : Plan Note) (account : String) (s s0 : ServiceState)
    (m : Result String String)
    → c.minted ≡ m
    → hash_differs c.opts.plan_hash p.hash ≡ false
    → SameButAudit s s0
    → Finishes env c s (after_mint env c p account s0 m)
after_mint-Finishes env c p account s s0 (err t) minted approved same =
    failed_early env c (mint_failed t) s s0 same
after_mint-Finishes env c p account s s0 (ok id) minted approved same =
    after_insert-Finishes env c p account id s s0 _ minted approved refl same

after_account-Finishes :
    (env : ServiceEnv) (c : CreateCall) (p : Plan Note) (s s0 : ServiceState)
    (a : Result ServiceError String)
    → hash_differs c.opts.plan_hash p.hash ≡ false
    → SameButAudit s s0
    → Finishes env c s (after_account env c p s0 a)
after_account-Finishes env c p s s0 (err e) approved same = failed_early env c e s s0 same
after_account-Finishes env c p s s0 (ok account) approved same =
    after_mint-Finishes env c p account s s0 c.minted refl approved same

after_plan-Finishes :
    (env : ServiceEnv) (c : CreateCall) (s s0 : ServiceState)
    (plan : Result ServiceError (Plan Note))
    → SameButAudit s s0
    → Finishes env c s (after_plan env c (plan, s0))
after_plan-Finishes env c s s0 (err e) same = failed_early env c e s s0 same
after_plan-Finishes env c s s0 (ok p) same =
    elim (Bool-cases (hash_differs c.opts.plan_hash p.hash)) [
      | inl differs ↦ rw differs (failed_early env c (hash_mismatch env c p) s s0 same)
      | inr approved ↦ rw approved (
          after_account-Finishes env c p s s0 (quest_account env c.user c.goal.account_id s0)
            approved same)
    ]

either_SameButAudit :
    {A : Type 0} (b : Bool) (s : ServiceState) (x y : A × ServiceState)
    → SameButAudit s x.1
    → SameButAudit s y.1
    → SameButAudit s (if b then x else y).1
either_SameButAudit true s x y hx hy = hx
either_SameButAudit false s x y hx hy = hy

plan_quest-SameButAudit :
    (env : ServiceEnv) (user : String) (goal : Goal) (now : Time) (s : ServiceState)
    → SameButAudit s (plan_quest env user goal now s).1
unfolding plan_quest
plan_quest-SameButAudit env user goal now s =
    either_SameButAudit (str_eq user "") s _ _
      (record { same_db = refl; same_keys = refl; same_engine = refl })
      (audit-SameButAudit user action_quest_plan _ _ s)

-- What CreateQuest does after the look-up.
pub after_gate-Finishes :
    (env : ServiceEnv) (c : CreateCall) (s : ServiceState)
    → Finishes env c s (after_gate env c s proceed)
after_gate-Finishes env c s =
    let (plan, s0) = plan_quest env c.user c.goal c.plan_now s in
    after_plan-Finishes env c s s0 plan (plan_quest-SameButAudit env c.user c.goal c.plan_now s)

pub create-runs :
    (env : ServiceEnv) (c : CreateCall) (s : ServiceState)
    → str_eq c.user "" ≡ false
    → create_gate env c s ≡ proceed
    → create env c s ≡ audit_created c (after_gate env c s proceed)
unfolding create
create-runs env c s named free = simp (named, free) refl

audited_end :
    (env : ServiceEnv) (c : CreateCall) (s : ServiceState) (out : Created × ServiceState)
    → Finishes env c s out
    → CreateEnd env c s.quest_db.quests s.engine
        (audit_created c out).0
        (audit_created c out).1.quest_db.quests
        (audit_created c out).1.engine
unfolding finish
audited_end env c s ((id, failure), s') f =
    let logged = audit-SameButAudit c.user action_quest_create id failure s' in
    let recorded =
      record_idempotency-SameButKeys env c.user scope_create_quest c.opts.idempotency_key
        (payload_hash_for env (goal_text env c)) id failure c.now f.last in
    moved f.stored
      (ap (λ (d : QuestDb). d.quests)
        (logged.same_db
          ∙ ap (λ (o : Created × ServiceState). o.1.quest_db) (sym f.ends)
          ∙ recorded.key_same_db))
      (logged.same_engine
        ∙ ap (λ (o : Created × ServiceState). o.1.engine) (sym f.ends)
        ∙ recorded.key_same_engine)

-- A CreateQuest that is not answered from an earlier call with the key ends in one of two ways: with an
-- error, no new quest and the engine as it was; or with exactly one new row, under the minted id, for a
-- plan with the approved hash, and then the answer is that of the engine's Submit of that id.
pub create_ends :
    (env : ServiceEnv) (c : CreateCall) (s : ServiceState)
    → str_eq c.user "" ≡ false
    → create_gate env c s ≡ proceed
    → CreateEnd env c s.quest_db.quests s.engine
        (create env c s).0
        (create env c s).1.quest_db.quests
        (create env c s).1.engine
create_ends env c s named free =
    subst
      (λ (o : Created × ServiceState).
        CreateEnd env c s.quest_db.quests s.engine o.0 o.1.quest_db.quests o.1.engine)
      (sym (create-runs env c s named free))
      (audited_end env c s (after_gate env c s proceed) (after_gate-Finishes env c s))
