-- ===== src/Service/Tokens/Issued.antt =====
-- What a call of IssueToken gives: a token that the middleware of the transport finds.
use resy_snipe.Store.Tokens.Writes.{insert_token-ok}
use resy_snipe.Store.Quests.{has_text}
use resy_snipe.Domain.Dates.{second}
use resy_snipe.Service.Errors.{ServiceError, wrapped}
use resy_snipe.Service.Authority.{require_operator_scope, caller_scope}
use resy_snipe.Prelude.Results.{
  Result, ok, err, err≢ok, ok_inj, bind_ok, guard_ok, map_err, map_err-ok, guard_last,
}
use resy_snipe.Prelude.{
  String, ◌≡◌, List, Option, true, Bool-cases, str_eq, arith, ◌*◌, ◌||◌, not, none, refl, ap, inl,
  inr, sym, if◌then◌else◌, ◌∙◌, false, subst,
}
use resy_snipe.Service.State.{audit, ServiceState, write_audit_event}
use resy_snipe.Prelude.Texts.{text_eq_refl, codes, is_empty}
use resy_snipe.Store.Tokens.{
  find_token_by_hash, find_live, TokenRow, insert_token, TokenDbRow, scan_token_row, to_seconds,
  token_columns, token_fields_required,
}
use resy_snipe.Service.Tokens.{
  IssueCall, TokenEnv, issue_token, mint, BearerToken, issue_checked, token_record, issued,
  action_token_issue, read_bytes,
}

-- Writing an audit row leaves the tokens.
audit-token_rows :
    (user action target : String) (failure : Option ServiceError) (s : ServiceState)
    → (audit user action target failure s).token_rows ≡ s.token_rows
unfolding audit write_audit_event
audit-token_rows user action target failure s =
    elim (Bool-cases (str_eq user "" || str_eq action "" || not (has_text user s.quest_db.users))) [
      | inl skipped ↦ rw skipped refl
      | inr written ↦ rw written refl
    ]

issued-ok :
    (c : IssueCall) (s s' : ServiceState) (t : BearerToken)
    (m : Result ServiceError (BearerToken × List TokenDbRow))
    → issued c s m ≡ (ok t, s')
    → m ≡ ok (t, s'.token_rows)
issued-ok c s s' t (err e) h = absurd (err≢ok (ap (λ x. x.0) h))
issued-ok c s s' t (ok (u, table)) h =
    let same : u ≡ t = ok_inj (ap (λ x. x.0) h) in
    let rows : table ≡ s'.token_rows =
      sym (
        audit-token_rows c.user action_token_issue (if str_eq u.id "" then c.label else u.id) none
          (record s { token_rows = table }))
      ∙ ap (λ x. x.1.token_rows) h in
    λ i. ok (same i, rows i)

-- The row that the lookup of a fresh token answers with.
unfoldable pub fresh_row : TokenEnv → IssueCall → BearerToken → TokenRow
fresh_row tenv c t = record {
  id = t.id;
  user_id = c.user;
  hash = tenv.sum256 (codes t.token);
  scopes = c.scope;
  label = c.label;
  created_at = to_seconds c.now * second;
  last_seen = none;
  revoked_at = none;
}

-- A row that was inserted is found by its hash.
find_token_by_hash-insert_token :
    (users : List String) (r : TokenRow) (rows table : List TokenDbRow)
    → insert_token users r rows ≡ ok table
    → find_token_by_hash r.hash table ≡ ok (scan_token_row (token_columns r))
unfolding find_token_by_hash find_live insert_token
find_token_by_hash-insert_token users r rows table h =
    let given =
      guard_ok
        (str_eq r.id ""
          || str_eq r.user_id ""
          || is_empty r.hash
          || str_eq r.scopes ""
          || str_eq r.label "")
        token_fields_required _ h in
    let some_hash : is_empty r.hash ≡ false = ground (arith, given.0) in
    subst (λ x. find_token_by_hash r.hash x ≡ ok (scan_token_row (token_columns r)))
      (insert_token-ok users r rows h).1 (rw (some_hash, text_eq_refl r.hash) refl)

mint-ok :
    (tenv : TokenEnv) (c : IssueCall) (users : List String) (rows table : List TokenDbRow)
    (t : BearerToken)
    → mint tenv c users rows ≡ ok (t, table)
    → (str_eq (caller_scope c.ctx) "operator" ≡ true)
      × (find_token_by_hash (tenv.sum256 (codes t.token)) table ≡ ok (fresh_row tenv c t))
unfolding mint issue_checked require_operator_scope token_record fresh_row scan_token_row
    token_columns
mint-ok tenv c users rows table t h =
    let checked = bind_ok (issue_checked tenv c) _ h in
    let scoped =
      bind_ok (map_err (wrapped "IssueToken: ") (require_operator_scope c.ctx)) _ checked.1 in
    let raw = bind_ok (read_bytes "IssueToken" c.raw) _ checked.2 in
    let bytes = bind_ok (read_bytes "IssueToken" c.id_bytes) _ raw.2 in
    let stored =
      bind_ok (map_err _ (insert_token users (token_record tenv c raw.0 bytes.0) rows)) _ bytes.2 in
    let inserted =
      map_err-ok _ (insert_token users (token_record tenv c raw.0 bytes.0) rows) stored.1 in
    let same = ok_inj stored.2 in
    (
      (guard_last (str_eq (caller_scope c.ctx) "operator") _
          (map_err-ok (wrapped "IssueToken: ") (require_operator_scope c.ctx) scoped.1)).0,
      subst
          (λ (x : BearerToken × List TokenDbRow).
            find_token_by_hash (tenv.sum256 (codes x.0.token)) x.1 ≡ ok (fresh_row tenv c x.0))
          same
          (find_token_by_hash-insert_token users (token_record tenv c raw.0 bytes.0) rows stored.0
            inserted),
    )

-- A call of IssueToken that returns a token was made by an operator, and from then the lookup of the
-- hash of the token's text answers with a row that has the token's id, the user and the scope that
-- were asked for and the time of the call in whole seconds, and that is not revoked.
pub issue_token_found :
    (tenv : TokenEnv) (c : IssueCall) (s s' : ServiceState) (t : BearerToken)
    → issue_token tenv c s ≡ (ok t, s')
    → (str_eq (caller_scope c.ctx) "operator" ≡ true)
      × (find_token_by_hash (tenv.sum256 (codes t.token)) s'.token_rows ≡ ok (fresh_row tenv c t))
unfolding issue_token
issue_token_found tenv c s s' t h =
    mint-ok tenv c s.quest_db.users s.token_rows s'.token_rows t
      (issued-ok c s s' t (mint tenv c s.quest_db.users s.token_rows) h)
