-- ===== src/Service/Creating/Replayed.antt =====
-- A CreateQuest of internal/service/standard_quest.go that is sent again under its key.
use resy_snipe.Service.Creating.Ends.{Finishes, create-runs, after_gate-Finishes}
use resy_snipe.Service.Frame.{SameButAudit, audit-SameButAudit}
use resy_snipe.Store.Idempotency.Replay.{IsOwned, get_idempotency_result-put}
use resy_snipe.Store.Idempotency.{
  to_ms, nullable_text, IdempotencyLookup, hash_idempotency_key, code_of, is_missing,
  get_idempotency_result, IdempotencyRow, put_idempotency_result,
}
use resy_snipe.Service.Errors.{
  ServiceError, replay_service_err, ErrorKind, error_code_for, invalid_plan_hash, mentions,
  not_found, invalid_argument, venue_not_found, venue_ambiguous, upstream_unavailable,
  internal_error,
}
use resy_snipe.Prelude.Results.{Result, ok}
use resy_snipe.Prelude.{
  Option, String, All, Bool, some, ◌+◌, ◌≡◌, Bool-cases, if◌then◌else◌, str_eq, false, inl, none,
  true, ◌*◌, sym, str_eq_iff, inr, refl, not, ltb, List, ap, ◌∙◌, ◌<◌, subst, lt→ltb,
}
use resy_snipe.Service.State.{
  ServiceEnv, ServiceState, record_idempotency, target_or_empty, idempotency_ttl, payload_hash_for,
  replay, text_of_failure, answered, idempotency_gate, proceed, audit, on_lookup,
}
use resy_snipe.Domain.Dates.{Time, millisecond}
use resy_snipe.Service.Creating.{
  CreateCall, finish, Created, scope_create_quest, goal_text, create_gate, create, audit_created,
  lookup_failed, action_quest_create, after_gate, used_for_another_goal,
}

-- The failure that a replay of the outcome reports.
abbrev pub replayed_failure : Option ServiceError → Option ServiceError
replayed_failure none = none
replayed_failure (some e) = if str_eq e.text "" then none else some (replay_service_err e.text)

abbrev is_kind : ErrorKind → ErrorKind → Bool
is_kind a b = str_eq (error_code_for a) (error_code_for b)

-- The kinds that a replay tells apart, and the failure without a sentinel.
abbrev pub IsTold : ErrorKind → Type 0
IsTold invalid_plan_hash = Unit
IsTold not_found = Unit
IsTold invalid_argument = Unit
IsTold venue_not_found = Unit
IsTold venue_ambiguous = Unit
IsTold upstream_unavailable = Unit
IsTold internal_error = Unit
IsTold _ = ⊥

-- Of the six sentinels that are looked for, the text contains the kind's own and no other.
pub record TellsKind (k : ErrorKind) (text : String) : Type 0 where
  pub told : IsTold k
  pub given : str_eq text "" ≡ false
  pub hash : mentions text invalid_plan_hash ≡ is_kind k invalid_plan_hash
  pub missing : mentions text not_found ≡ is_kind k not_found
  pub argument : mentions text invalid_argument ≡ is_kind k invalid_argument
  pub no_venue : mentions text venue_not_found ≡ is_kind k venue_not_found
  pub venues : mentions text venue_ambiguous ≡ is_kind k venue_ambiguous
  pub upstream : mentions text upstream_unavailable ≡ is_kind k upstream_unavailable

abbrev pub HasOwnText : Option ServiceError → Type 0
HasOwnText none = Unit
HasOwnText (some e) = TellsKind e.kind e.text

-- Both succeed, or both fail with one kind.
abbrev pub EndsAlike : Option ServiceError → Option ServiceError → Type 0
EndsAlike none none = Unit
EndsAlike (some a) (some b) = a.kind ≡ b.kind
EndsAlike _ _ = ⊥

replay_service_err-kind :
    (k : ErrorKind) (text : String) → TellsKind k text → (replay_service_err text).kind ≡ k
unfolding replay_service_err error_code_for
replay_service_err-kind invalid_plan_hash text h = rw h.hash refl
replay_service_err-kind not_found text h = rw (h.hash, h.missing) refl
replay_service_err-kind invalid_argument text h = rw (h.hash, h.missing, h.argument) refl
replay_service_err-kind venue_not_found text h = rw (h.hash, h.missing, h.argument, h.no_venue) refl
replay_service_err-kind venue_ambiguous text h =
    rw (h.hash, h.missing, h.argument, h.no_venue, h.venues) refl
replay_service_err-kind upstream_unavailable text h =
    rw (h.hash, h.missing, h.argument, h.no_venue, h.venues, h.upstream) refl
replay_service_err-kind internal_error text h =
    rw (h.hash, h.missing, h.argument, h.no_venue, h.venues, h.upstream) refl
replay_service_err-kind _ text h = absurd h.told

replayed_failure-EndsAlike :
    (failure : Option ServiceError)
    → HasOwnText failure
    → EndsAlike failure (replayed_failure failure)
replayed_failure-EndsAlike none h = tt
replayed_failure-EndsAlike (some e) h = rw h.given (sym (replay_service_err-kind e.kind e.text h))

-- The same user, goal and key, at another time; the approved hash may be another one.
abbrev pub again : CreateCall → Time → Time → Result String String → Option String → CreateCall
again c now plan_now minted approved = record c {
  now = now;
  plan_now = plan_now;
  minted = minted;
  opts = record { plan_hash = approved; idempotency_key = c.opts.idempotency_key };
}

-- The rows of the key stay readable until then.
abbrev pub expiry : Time → Time
expiry now = to_ms (now + idempotency_ttl) * millisecond

nullable_text-target : (id : String) → target_or_empty (nullable_text id) ≡ id
nullable_text-target id = elim (Bool-cases (str_eq id "")) [
  | inl blank ↦ rw blank (sym ((str_eq_iff id "").0 blank))
  | inr given ↦ rw given refl
]

replay-failure :
    (id : String) (failure : Option ServiceError)
    → replay (target_or_empty (nullable_text id)) (text_of_failure failure)
      ≡ answered id (replayed_failure failure)
replay-failure id none = ap (λ t. answered t none) (nullable_text-target id)
replay-failure id (some e) = elim (Bool-cases (str_eq e.text "")) [
  | inl blank ↦ rw blank (ap (λ t. answered t none) (nullable_text-target id))
  | inr given ↦
      rw given (ap (λ t. answered t (some (replay_service_err e.text))) (nullable_text-target id))
]

-- The look-up of the outcome, before it expires.
abbrev outcome_row : CreateCall → Created → Bool → IdempotencyLookup
outcome_row c out expired = record {
  found = true;
  payload_match = true;
  expired = expired;
  target = nullable_text out.0;
  code = some (code_of (text_of_failure out.1));
  err_text = text_of_failure out.1;
}

-- Whose rows have the key's hash.
abbrev pub KeyIsOwned : ServiceEnv → CreateCall → String → ServiceState → Type 0
KeyIsOwned env c key s =
    All
      (IsOwned
        (hash_idempotency_key env.formats.sha256_hex c.user scope_create_quest key
          (payload_hash_for env (goal_text env c)))
        c.user)
      s.keys

record_idempotency-keys :
    (env : ServiceEnv) (user scope key payload target : String) (f : Option ServiceError)
    (now : Time) (s : ServiceState) (rows : List IdempotencyRow)
    → str_eq key "" ≡ false
    → put_idempotency_result env.formats.sha256_hex user scope key payload target
        (text_of_failure f)
        idempotency_ttl
        now
        s.keys
      ≡ ok rows
    → (record_idempotency env user scope (some key) payload target f now s).keys ≡ rows
unfolding record_idempotency
record_idempotency-keys env user scope key payload target f now s rows given put =
    rw (given, put) refl

-- What the recorded keys answer from then on.
finish-lookup :
    (env : ServiceEnv) (c : CreateCall) (key id : String) (failure : Option ServiceError)
    (s : ServiceState)
    → c.opts.idempotency_key ≡ some key
    → str_eq key "" ≡ false
    → is_missing c.user scope_create_quest key ≡ false
    → KeyIsOwned env c key s
    → (later : Time)
    → get_idempotency_result env.formats.sha256_hex c.user scope_create_quest key
        (payload_hash_for env (goal_text env c))
        later
        (finish env c id failure s).1.keys
      ≡ ok (outcome_row c (id, failure) (not (ltb later (expiry c.now))))
unfolding finish
finish-lookup env c key id failure s keyed given present owned later =
    let (rows, put, gets, others) =
      get_idempotency_result-put env.formats.sha256_hex c.user scope_create_quest key
        (payload_hash_for env (goal_text env c)) id (text_of_failure failure) idempotency_ttl c.now
        s.keys present owned in
    let payload = payload_hash_for env (goal_text env c) in
    let kept =
      ap (λ k. (record_idempotency env c.user scope_create_quest k payload id failure c.now s).keys)
        keyed
      ∙ record_idempotency-keys env c.user scope_create_quest key payload id failure c.now s rows
          given put in
    ap (get_idempotency_result env.formats.sha256_hex c.user scope_create_quest key payload later)
      kept
    ∙ gets later

idempotency_gate-given :
    (env : ServiceEnv) (user scope key payload : String) (now : Time)
    (failing : String → ServiceError) (conflicting : String → IdempotencyLookup → ServiceError)
    (s : ServiceState)
    → str_eq key "" ≡ false
    → idempotency_gate env user scope (some key) payload now failing conflicting s
      ≡ on_lookup failing
          (conflicting key)
          (get_idempotency_result env.formats.sha256_hex user scope key payload now s.keys)
          env.key_error_text
unfolding idempotency_gate
idempotency_gate-given env user scope key payload now failing conflicting s given = rw given refl

create_gate-replay :
    (env : ServiceEnv) (c c' : CreateCall) (key id : String) (failure : Option ServiceError)
    (s : ServiceState)
    → c'.opts.idempotency_key ≡ some key
    → str_eq key "" ≡ false
    → get_idempotency_result env.formats.sha256_hex c'.user scope_create_quest key
        (payload_hash_for env (goal_text env c'))
        c'.now
        s.keys
      ≡ ok (outcome_row c (id, failure) false)
    → create_gate env c' s ≡ answered id (replayed_failure failure)
unfolding create_gate
create_gate-replay env c c' key id failure s keyed given found =
    ap
      (λ k.
        idempotency_gate env c'.user scope_create_quest k (payload_hash_for env (goal_text env c'))
          c'.now lookup_failed (used_for_another_goal env) s)
      keyed
    ∙ idempotency_gate-given env c'.user scope_create_quest key
        (payload_hash_for env (goal_text env c')) c'.now lookup_failed (used_for_another_goal env) s
        given
    ∙ ap (λ l. on_lookup lookup_failed (used_for_another_goal env key) l env.key_error_text) found
    ∙ replay-failure id failure

create-answered :
    (env : ServiceEnv) (c : CreateCall) (id : String) (f : Option ServiceError) (s : ServiceState)
    → str_eq c.user "" ≡ false
    → create_gate env c s ≡ answered id f
    → create env c s ≡ ((id, f), audit c.user action_quest_create id f s)
unfolding create
create-answered env c id f s named held = rw (named, held) refl

Finishes-lookup :
    (env : ServiceEnv) (c : CreateCall) (key : String) (s : ServiceState)
    (out : Created × ServiceState)
    → Finishes env c s out
    → c.opts.idempotency_key ≡ some key
    → str_eq key "" ≡ false
    → is_missing c.user scope_create_quest key ≡ false
    → KeyIsOwned env c key s
    → (later : Time)
    → get_idempotency_result env.formats.sha256_hex c.user scope_create_quest key
        (payload_hash_for env (goal_text env c))
        later
        (audit_created c out).1.keys
      ≡ ok (outcome_row c (audit_created c out).0 (not (ltb later (expiry c.now))))
Finishes-lookup env c key s ((id, failure), s1) f keyed given present owned later =
    let logged = audit-SameButAudit c.user action_quest_create id failure s1 in
    let owned' : KeyIsOwned env c key f.last =
      subst
        (λ rows.
          All
            (IsOwned
              (hash_idempotency_key env.formats.sha256_hex c.user scope_create_quest key
                (payload_hash_for env (goal_text env c)))
              c.user)
            rows)
        (sym f.keys_kept) owned in
    ap
      (get_idempotency_result env.formats.sha256_hex c.user scope_create_quest key
        (payload_hash_for env (goal_text env c)) later)
      (logged.same_keys ∙ ap (λ (o : Created × ServiceState). o.1.keys) (sym f.ends))
    ∙ finish-lookup env c key id failure f.last keyed given present owned' later

-- A CreateQuest under a key that is sent again by the same user for the same goal, before a day is
-- over and while the recorded keys stand, returns the id of the first call, and succeeds if it did
-- or fails with the kind of its failure, where that is one of the six that a replay looks for or an
-- internal one and its text contains the sentinel of no other of the six; nothing is planned,
-- stored or submitted again, only the audit grows. That no other user's row has the key's hash is
-- assumed of the digest. The hash that the second call approves is not looked at.
pub create-again :
    (env : ServiceEnv) (c : CreateCall) (key : String) (s s' : ServiceState)
    (later plan_later : Time) (minted : Result String String) (approved : Option String)
    → str_eq c.user "" ≡ false
    → c.opts.idempotency_key ≡ some key
    → str_eq key "" ≡ false
    → KeyIsOwned env c key s
    → create_gate env c s ≡ proceed
    → s'.keys ≡ (create env c s).1.keys
    → later < expiry c.now
    → HasOwnText (create env c s).0.1
    → ((create env (again c later plan_later minted approved) s').0.0 ≡ (create env c s).0.0)
      × EndsAlike
          (create env c s).0.1
          (create env (again c later plan_later minted approved) s').0.1
      × SameButAudit s' (create env (again c later plan_later minted approved) s').1
create-again env c key s s' later plan_later minted approved named keyed given owned free stands
      early tells =
    let out = audit_created c (after_gate env c s proceed) in
    let runs = create-runs env c s named free in
    let c' = again c later plan_later minted approved in
    let fresh : not (ltb later (expiry c.now)) ≡ false =
      ap not (lt→ltb later (expiry c.now) early) in
    let found =
      ap
        (get_idempotency_result env.formats.sha256_hex c.user scope_create_quest key
          (payload_hash_for env (goal_text env c)) later)
        (stands ∙ ap (λ (o : Created × ServiceState). o.1.keys) runs)
      ∙ Finishes-lookup env c key s (after_gate env c s proceed) (after_gate-Finishes env c s) keyed
          given (rw (named, given) refl) owned later
      ∙ ap (λ b. ok (outcome_row c out.0 b)) fresh in
    let held = create_gate-replay env c c' key out.0.0 out.0.1 s' keyed given found in
    let answer = create-answered env c' out.0.0 (replayed_failure out.0.1) s' named held in
    (
      ap (λ (o : Created × ServiceState). o.0.0) answer
          ∙ ap (λ (o : Created × ServiceState). o.0.0) (sym runs),
      subst (EndsAlike (create env c s).0.1)
          (ap (λ (o : Created × ServiceState). replayed_failure o.0.1) runs
            ∙ ap (λ (o : Created × ServiceState). o.0.1) (sym answer))
          (replayed_failure-EndsAlike (create env c s).0.1 tells),
      subst (λ (o : Created × ServiceState). SameButAudit s' o.1) (sym answer)
          (audit-SameButAudit c.user action_quest_create out.0.0 (replayed_failure out.0.1) s'),
    )
