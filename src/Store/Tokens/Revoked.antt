-- ===== src/Store/Tokens/Revoked.antt =====
-- What revocation promises, over all that internal/store/tokens.go does to the table.
use mathlib.Core.Bool.{false≢true}
use resy_snipe.Prelude.Results.{Result, ok, is_ok, err}
use resy_snipe.Prelude.Texts.{Text, is_empty}
use resy_snipe.Domain.Dates.{Time}
use resy_snipe.Store.Tokens.Writes.{
  run_tokens, TokenWrite, HasUniqueIds, apply_token_write_keeps, has_token-stamp_revoked,
  run_tokens-HasUniqueIds, has_token-stamp_seen, revoke_token-ok,
}
use resy_snipe.Prelude.{
  List, String, ℕ, Bool, [], ◌==◌, ◌∷◌, ◌≡◌, arith, false, true, Bool-cases, refl, str_eq, inl, sym,
  ◌&&◌, ◌∙◌, ap, inr, is_none, str_eq_iff, subst, ◌||◌,
}
use resy_snipe.Store.Tokens.{
  find_live, find_token_by_hash, has_token, revoke_token, rows_affected, stamp_revoked, stamp_seen,
  TokenDbRow, TokenRow, scan_token_row, token_columns, TokenError, is_live_hash, to_seconds,
}

-- Some row with the id is not revoked.
unfoldable pub has_live : String → List TokenDbRow → Bool
has_live id [] = false
has_live id (r ∷ rs) = (str_eq r.id id && is_none r.revoked_s) || has_live id rs

-- The token with the id is revoked.
pub record IsRevoked (id : String) (rows : List TokenDbRow) : Type 0 where
  pub is_kept : has_token id rows ≡ true
  pub is_dead : has_live id rows ≡ false

-- The lookup answered with the token.
abbrev pub finds : String → Result TokenError TokenRow → Bool
finds id (ok t) = str_eq t.id id
finds id (err e) = false

has_live-stamp_seen :
    (x : String) (h : Text) (at : ℕ) (rows : List TokenDbRow)
    → has_live x (stamp_seen h at rows) ≡ has_live x rows
unfolding has_live stamp_seen
has_live-stamp_seen x h at [] = refl
has_live-stamp_seen x h at (r ∷ rs) = ground (arith, has_live-stamp_seen x h at rs)

has_live-stamp_revoked :
    (x user id : String) (at : ℕ) (rows : List TokenDbRow)
    → has_live x rows ≡ false
    → has_live x (stamp_revoked user id at rows) ≡ false
unfolding has_live stamp_revoked
has_live-stamp_revoked x user id at [] dead = refl
has_live-stamp_revoked x user id at (r ∷ rs) dead =
    ground (arith, has_live-stamp_revoked x user id at rs)

-- What is live is there.
has_live-absent :
    (x : String) (rows : List TokenDbRow) → has_token x rows ≡ false → has_live x rows ≡ false
unfolding has_live has_token
has_live-absent x [] h = refl
has_live-absent x (r ∷ rs) h = ground (arith, has_live-absent x rs)

-- An update that affected a row found the id.
rows_affected-has_token :
    (user id : String) (rows : List TokenDbRow)
    → (rows_affected user id rows == 0) ≡ false
    → has_token id rows ≡ true
unfolding rows_affected has_token
rows_affected-has_token user id [] hit = absurd (false≢true (sym hit))
rows_affected-has_token user id (r ∷ rs) hit = ground (arith, rows_affected-has_token user id rs)

-- A revocation that affected a row leaves no live row with the id, since no other row has it.
has_live-revoked :
    (user id : String) (at : ℕ) (rows : List TokenDbRow)
    → HasUniqueIds rows
    → (rows_affected user id rows == 0) ≡ false
    → has_live id (stamp_revoked user id at rows) ≡ false
unfolding rows_affected has_token has_live stamp_revoked
has_live-revoked user id at [] keyed hit = refl
has_live-revoked user id at (r ∷ rs) keyed hit = elim (Bool-cases (str_eq r.id id)) [
  | inl same ↦
      let absent : has_token id rs ≡ false =
        ap (λ x. has_token x rs) (sym ((str_eq_iff r.id id).0 same)) ∙ keyed.0 in
      ground (
        arith,
        same,
        rows_affected-has_token user id rs,
        has_live-stamp_revoked id user id at rs (has_live-absent id rs absent),
      )
  | inr other ↦ ground (arith, other, has_live-revoked user id at rs keyed.1)
]

stamp_revoked-IsRevoked :
    (user id : String) (at : ℕ) (rows : List TokenDbRow)
    → HasUniqueIds rows
    → (rows_affected user id rows == 0) ≡ false
    → IsRevoked id (stamp_revoked user id at rows)
stamp_revoked-IsRevoked user id at rows keyed hit = record {
  is_kept = has_token-stamp_revoked id user id at rows ∙ rows_affected-has_token user id rows hit;
  is_dead = has_live-revoked user id at rows keyed hit;
}

IsRevoked-insert :
    (id : String) (t : TokenRow) (rows : List TokenDbRow)
    → IsRevoked id rows
    → has_token t.id rows ≡ false
    → IsRevoked id (token_columns t ∷ rows)
unfolding has_token has_live token_columns
IsRevoked-insert id t rows gone new = elim (Bool-cases (str_eq t.id id)) [
  | inl same ↦ absurd (
      false≢true
        (sym new ∙ ap (λ x. has_token x rows) ((str_eq_iff t.id id).0 same) ∙ gone.is_kept))
  | inr other ↦ record {
    is_kept = ground (arith, gone.is_kept);
    is_dead = ground (arith, other, gone.is_dead);
  }
]

run_tokens-IsRevoked :
    (id : String) (users : List String) (ws : List TokenWrite) (rows : List TokenDbRow)
    → IsRevoked id rows
    → IsRevoked id (run_tokens users ws rows)
unfolding run_tokens
run_tokens-IsRevoked id users [] rows gone = gone
run_tokens-IsRevoked id users (w ∷ ws) rows gone = run_tokens-IsRevoked id users ws _ (
    apply_token_write_keeps (IsRevoked id) users rows (λ t new. IsRevoked-insert id t rows gone new)
      (λ user other at. record {
        is_kept = has_token-stamp_revoked id user other at rows ∙ gone.is_kept;
        is_dead = has_live-stamp_revoked id user other at rows gone.is_dead;
      })
      (λ hash at. record {
        is_kept = has_token-stamp_seen id hash at rows ∙ gone.is_kept;
        is_dead = has_live-stamp_seen id hash at rows ∙ gone.is_dead;
      })
      gone w)

find_live-dead :
    (id : String) (hash : Text) (rows : List TokenDbRow)
    → has_live id rows ≡ false
    → finds id (find_live hash rows) ≡ false
unfolding find_live has_live scan_token_row
find_live-dead id hash [] dead = refl
find_live-dead id hash (r ∷ rs) dead = elim (Bool-cases (is_live_hash hash r)) [
  | inl hit ↦ rw hit (ground (arith, dead, hit))
  | inr miss ↦ rw miss (find_live-dead id hash rs (ground (arith, dead)))
]

rows_affected-dead :
    (user id : String) (rows : List TokenDbRow)
    → has_live id rows ≡ false
    → rows_affected user id rows ≡ 0
unfolding rows_affected has_live
rows_affected-dead user id [] dead = refl
rows_affected-dead user id (r ∷ rs) dead = ground (arith, rows_affected-dead user id rs)

find_token_by_hash-dead :
    (id : String) (hash : Text) (rows : List TokenDbRow)
    → has_live id rows ≡ false
    → finds id (find_token_by_hash hash rows) ≡ false
unfolding find_token_by_hash
find_token_by_hash-dead id hash rows dead = elim (Bool-cases (is_empty hash)) [
  | inl none_given ↦ rw none_given refl
  | inr given ↦ rw given (find_live-dead id hash rows dead)
]

revoke_token-dead :
    (user id : String) (now : Time) (rows : List TokenDbRow)
    → has_live id rows ≡ false
    → is_ok (revoke_token user id now rows) ≡ false
unfolding revoke_token
revoke_token-dead user id now rows dead = ground (arith, rows_affected-dead user id rows dead)

-- After a table that is written through these calls had a token revoked, whatever is written next,
-- no lookup by any hash answers with the token's id, the token's row is still there, and another
-- revocation of it, by any user, is an error.
pub revoke_token_lasts :
    (users : List String) (before after : List TokenWrite) (user id : String) (now : Time)
    (rows : List TokenDbRow) (hash : Text) (again : String) (later : Time)
    → revoke_token user id now (run_tokens users before []) ≡ ok rows
    → (finds id (find_token_by_hash hash (run_tokens users after rows)) ≡ false)
      × (has_token id (run_tokens users after rows) ≡ true)
      × (is_ok (revoke_token again id later (run_tokens users after rows)) ≡ false)
revoke_token_lasts users before after user id now rows hash again later done =
    let table = run_tokens users before [] in
    let keyed = run_tokens-HasUniqueIds users before [] tt in
    let hit = revoke_token-ok user id now table done in
    let gone : IsRevoked id rows =
      subst (IsRevoked id) hit.1
        (stamp_revoked-IsRevoked user id (to_seconds now) table keyed hit.0) in
    let end = run_tokens-IsRevoked id users after rows gone in
    (
      find_token_by_hash-dead id hash _ end.is_dead,
      end.is_kept,
      revoke_token-dead again id later _ end.is_dead,
    )
