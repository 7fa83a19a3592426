-- ===== src/Store/Idempotency/Replay.antt =====
-- A request that is sent again finds its first result, and only its own user does.
use resy_snipe.Prelude.Results.{ok}
use resy_snipe.Domain.Dates.{Time, millisecond}
use resy_snipe.Prelude.{
  String, str_eq, ◌≡◌, List, true, All, str_eq_iff, some, ◌∷◌, Bool-cases, inl, inr, [], refl, ◌≢◌,
  arith, Option, ℕ, false, not, ltb, ◌+◌, ◌*◌,
}
use resy_snipe.Store.Idempotency.{
  IdempotencyRow, find_exact, upsert_result, overwrite, find_freshest, put_idempotency_result,
  get_idempotency_result, scan_idempotency_row, is_missing, hash_idempotency_key, to_ms,
  nullable_text, code_of, hash_idempotency_plain,
}

-- A row with the hash is the user's.
abbrev pub IsOwned : String → String → IdempotencyRow → Type 0
IsOwned hash user r = r.key_hash ≡ hash → r.user_id ≡ user

-- The row says what the new one says of the result.
pub record Carries (new r : IdempotencyRow) : Type 0 where
  pub same_target : r.target_id ≡ new.target_id
  pub same_code : r.result_code ≡ new.result_code
  pub same_err : r.result_err ≡ new.result_err
  pub same_expiry : r.expires_ms ≡ new.expires_ms

str_eq_refl : (a : String) → str_eq a a ≡ true
str_eq_refl a = (str_eq_iff a a).1 refl

find_exact-upsert_result :
    (new : IdempotencyRow) (rows : List IdempotencyRow)
    → All (IsOwned new.key_hash new.user_id) rows
    → (r : IdempotencyRow) × (find_exact new.key_hash new.user_id (upsert_result new rows) ≡ some r)
      × Carries new r
unfolding find_exact upsert_result
find_exact-upsert_result new [] h = (
  new,
  rw (str_eq_refl new.key_hash, str_eq_refl new.user_id) refl,
  record { same_target = refl; same_code = refl; same_err = refl; same_expiry = refl },
)
find_exact-upsert_result new (r ∷ rows) h = elim (Bool-cases (str_eq r.key_hash new.key_hash)) [
  | inl same ↦ (
    overwrite new r,
    simp (same, h.0 ((str_eq_iff r.key_hash new.key_hash).0 same), str_eq_refl new.user_id) refl,
    record { same_target = refl; same_code = refl; same_err = refl; same_expiry = refl },
  )
  | inr other ↦
      let (r', e, c) = find_exact-upsert_result new rows h.1 in (r', simp (other, e) refl, c)
]

-- What the new row leaves as it was, for any other user.
find_exact-other_user :
    (new : IdempotencyRow) (hash user : String) (rows : List IdempotencyRow)
    → user ≢ new.user_id
    → All (IsOwned new.key_hash new.user_id) rows
    → find_exact hash user (upsert_result new rows) ≡ find_exact hash user rows
unfolding find_exact upsert_result
find_exact-other_user new hash user [] ne h = ground (arith, str_eq_iff new.user_id user)
find_exact-other_user new hash user (r ∷ rows) ne h = ground (
  arith,
  find_exact-other_user new hash user rows ne h.1,
  str_eq_iff new.user_id user,
  str_eq_iff r.user_id user,
  str_eq_iff r.key_hash new.key_hash,
  h.0,
)

find_freshest-other_user :
    (new : IdempotencyRow) (user scope plain : String) (rows : List IdempotencyRow)
    → user ≢ new.user_id
    → All (IsOwned new.key_hash new.user_id) rows
    → find_freshest user scope plain (upsert_result new rows) ≡ find_freshest user scope plain rows
unfolding find_freshest upsert_result
find_freshest-other_user new user scope plain [] ne h = ground (arith, str_eq_iff new.user_id user)
find_freshest-other_user new user scope plain (r ∷ rows) ne h = ground (
  arith,
  find_freshest-other_user new user scope plain rows ne h.1,
  str_eq_iff new.user_id user,
  str_eq_iff r.user_id user,
  str_eq_iff r.key_hash new.key_hash,
  h.0,
)

-- A result that is put is got by the same request, as long as it has not expired and marked so from
-- then on, and it changes no answer for another user; that no other user's row has the same key hash
-- is assumed of the digest.
pub get_idempotency_result-put :
    (sha256 : String → String) (user scope key payload target : String) (err_val : Option String)
    (ttl : ℕ) (now : Time) (rows : List IdempotencyRow)
    → is_missing user scope key ≡ false
    → All (IsOwned (hash_idempotency_key sha256 user scope key payload) user) rows
    → (rows' : List IdempotencyRow) × (put_idempotency_result sha256 user scope key payload target
          err_val ttl now rows
        ≡ ok rows')
      × ((later : Time)
          → get_idempotency_result sha256 user scope key payload later rows'
            ≡ ok (record {
              found = true;
              payload_match = true;
              expired = not (ltb later (to_ms (now + ttl) * millisecond));
              target = nullable_text target;
              code = some (code_of err_val);
              err_text = err_val;
            }))
      × ((other scope' key' payload' : String) (later : Time)
          → other ≢ user
          → get_idempotency_result sha256 other scope' key' payload' later rows'
            ≡ get_idempotency_result sha256 other scope' key' payload' later rows)
unfolding put_idempotency_result get_idempotency_result scan_idempotency_row
get_idempotency_result-put sha256 user scope key payload target err_val ttl now rows given owned =
    let new : IdempotencyRow = record {
      key_hash = hash_idempotency_key sha256 user scope key payload;
      user_id = user;
      scope = scope;
      plain_hash = hash_idempotency_plain sha256 user scope key;
      target_id = nullable_text target;
      result_code = code_of err_val;
      result_err = err_val;
      created_ms = to_ms now;
      expires_ms = to_ms (now + ttl);
    } in
    let (r, e, c) = find_exact-upsert_result new rows owned in
    (
      upsert_result new rows,
      rw given refl,
      λ later. simp (given, e, c.same_target, c.same_code, c.same_err, c.same_expiry) refl,
      λ other scope' key' payload' later ne.
          simp
            (
              find_exact-other_user new (hash_idempotency_key sha256 other scope' key' payload')
                  other rows ne owned,
              find_freshest-other_user new other scope'
                  (hash_idempotency_plain sha256 other scope' key') rows ne owned,
            )
            refl,
    )
