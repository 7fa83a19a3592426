-- ===== src/Store/Idempotency.antt =====
-- internal/store/idempotency.go: the results of requests that may be sent again. `sha256` is the
-- digest. Times are written in whole milliseconds, rounded down.
use resy_snipe.Prelude.Results.{Result, err, ok}
use resy_snipe.Domain.Dates.{Time, millisecond}
use resy_snipe.Prelude.{
  Bool, List, Option, String, false, if◌then◌else◌, none, some, str_eq, true, ℕ, ◌∷◌, [], leb, ltb,
  not, ◌&&◌, ◌+◌, ◌/◌, ◌||◌, suc, ◌*◌,
}
use Prim.Native.String.{◌++◌}
pub mod Replay

pub data IdempotencyResultCode : Type 0 where
  idempotency_ok idempotency_error : IdempotencyResultCode

-- A row of idempotency_keys; the two times are in milliseconds, NULL is `none`.
pub record IdempotencyRow : Type 0 where
  pub key_hash : String
  pub user_id : String
  pub scope : String
  pub plain_hash : String
  pub target_id : Option String
  pub result_code : IdempotencyResultCode
  pub result_err : Option String
  pub created_ms : ℕ
  pub expires_ms : ℕ

pub record IdempotencyLookup : Type 0 where
  pub found : Bool
  pub payload_match : Bool
  pub expired : Bool
  pub target : Option String
  pub code : Option IdempotencyResultCode
  pub err_text : Option String

pub data IdempotencyError : Type 0 where
  component_required : IdempotencyError

-- The zero value of the lookup.
abbrev pub no_lookup : IdempotencyLookup
no_lookup = record {
  found = false;
  payload_match = false;
  expired = false;
  target = none;
  code = none;
  err_text = none;
}

abbrev pub to_ms : Time → ℕ
to_ms t = t / millisecond

-- scanIdempotencyRow of a row.
unfoldable pub scan_idempotency_row : Time → IdempotencyRow → IdempotencyLookup
scan_idempotency_row now r = record {
  found = true;
  payload_match = false;
  expired = not (ltb now (r.expires_ms * millisecond));
  target = r.target_id;
  code = some r.result_code;
  err_text = r.result_err;
}

-- ON CONFLICT(key_hash) DO UPDATE: the result and the times are replaced.
abbrev pub overwrite : IdempotencyRow → IdempotencyRow → IdempotencyRow
overwrite new old = record old {
  target_id = new.target_id;
  result_code = new.result_code;
  result_err = new.result_err;
  created_ms = new.created_ms;
  expires_ms = new.expires_ms;
}

unfoldable pub upsert_result : IdempotencyRow → List IdempotencyRow → List IdempotencyRow
upsert_result new [] = new ∷ []
upsert_result new (r ∷ rows) =
    let rest = upsert_result new rows in
    if str_eq r.key_hash new.key_hash then overwrite new r ∷ rows else r ∷ rest

-- WHERE key_hash = ? AND user_id = ?.
unfoldable pub find_exact : String → String → List IdempotencyRow → Option IdempotencyRow
find_exact key_hash user [] = none
find_exact key_hash user (r ∷ rows) =
    let rest = find_exact key_hash user rows in
    if str_eq r.key_hash key_hash && str_eq r.user_id user then some r else rest

-- Of two candidates the one created later; of two of one time the first.
abbrev pub fresher : IdempotencyRow → Option IdempotencyRow → Option IdempotencyRow
fresher r none = some r
fresher r (some later) = if ltb r.created_ms later.created_ms then some later else some r

-- WHERE user_id = ? AND scope = ? AND plain_hash = ? ORDER BY created_at DESC LIMIT 1.
unfoldable pub find_freshest :
    String → String → String → List IdempotencyRow → Option IdempotencyRow
find_freshest user scope plain [] = none
find_freshest user scope plain (r ∷ rows) =
    let rest = find_freshest user scope plain rows in
    if str_eq r.user_id user && str_eq r.scope scope && str_eq r.plain_hash plain
    then fresher r rest
    else rest

-- The components that must be given.
abbrev pub is_missing : String → String → String → Bool
is_missing user scope key = str_eq user "" || str_eq scope "" || str_eq key ""

-- The second stage of the lookup.
abbrev pub on_mismatch : Time → Option IdempotencyRow → IdempotencyLookup
on_mismatch now none = no_lookup
on_mismatch now (some r) = scan_idempotency_row now r

abbrev pub on_exact : Time → Option IdempotencyRow → Option IdempotencyRow → IdempotencyLookup
on_exact now none freshest = on_mismatch now freshest
on_exact now (some r) freshest = record (scan_idempotency_row now r) { payload_match = true }

-- The target and the error of an outcome; an empty target is NULL.
abbrev pub code_of : Option String → IdempotencyResultCode
code_of none = idempotency_ok
code_of (some e) = idempotency_error

abbrev pub nullable_text : String → Option String
nullable_text t = if str_eq t "" then none else some t

module _ (sha256 : String → String) where
  -- HashIdempotencyKey.
  unfoldable pub hash_idempotency_key : String → String → String → String → String
  hash_idempotency_key user scope key payload =
      sha256 (user ++ ":" ++ scope ++ ":" ++ key ++ ":" ++ payload)

  -- HashIdempotencyPlain.
  unfoldable pub hash_idempotency_plain : String → String → String → String
  hash_idempotency_plain user scope key = sha256 (user ++ ":" ++ scope ++ ":" ++ key)

  -- PutIdempotencyResult.
  unfoldable pub put_idempotency_result :
      String
      → String
      → String
      → String
      → String
      → Option String
      → ℕ
      → Time
      → List IdempotencyRow
      → Result IdempotencyError (List IdempotencyRow)
  put_idempotency_result user scope key payload target err_val ttl now rows =
      let row : IdempotencyRow = record {
        key_hash = hash_idempotency_key user scope key payload;
        user_id = user;
        scope = scope;
        plain_hash = hash_idempotency_plain user scope key;
        target_id = nullable_text target;
        result_code = code_of err_val;
        result_err = err_val;
        created_ms = to_ms now;
        expires_ms = to_ms (now + ttl);
      } in
      if is_missing user scope key then err component_required else ok (upsert_result row rows)

  -- GetIdempotencyResult.
  unfoldable pub get_idempotency_result :
      String
      → String
      → String
      → String
      → Time
      → List IdempotencyRow
      → Result IdempotencyError IdempotencyLookup
  get_idempotency_result user scope key payload now rows =
      if is_missing user scope key
      then err component_required
      else ok (
          on_exact now (find_exact (hash_idempotency_key user scope key payload) user rows)
            (find_freshest user scope (hash_idempotency_plain user scope key) rows))

-- PruneExpiredIdempotency, and the number of rows that it removes.
unfoldable pub prune_expired_idempotency : Time → List IdempotencyRow → List IdempotencyRow × ℕ
prune_expired_idempotency now [] = ([], 0)
prune_expired_idempotency now (r ∷ rows) =
    let (kept, n) = prune_expired_idempotency now rows in
    if leb r.expires_ms (to_ms now) then (kept, suc n) else (r ∷ kept, n)
