-- ===== src/Store/Tokens/Writes.antt =====
-- Runs of the writes of internal/store/tokens.go, and what each of them keeps.
use resy_snipe.Store.Quests.{has_text}
use resy_snipe.Domain.Dates.{Time, is_zero}
use resy_snipe.Store.Quests.Tenancy.{or_else}
use resy_snipe.Prelude.Texts.{Text, is_empty}
use resy_snipe.Prelude.Results.{Result, ok, err, guard_ok, ok_inj}
use resy_snipe.Prelude.{
  List, String, ℕ, ◌∷◌, ◌≡◌, Bool-cases, [], arith, false, refl, subst, inl, str_eq, ◌==◌, ◌||◌,
  ◌∙◌, inr, not,
}
use resy_snipe.Store.Tokens.{
  TokenRow, has_token, insert_token, revoke_token, stamp_revoked, stamp_seen, token_columns,
  touch_token_seen, TokenDbRow, TokenError, is_live_hash, is_revocable, rows_affected, to_seconds,
  token_fields_required, token_not_found, is_known_scope, bad_scopes, has_hash, token_constraint,
}

-- The calls that write.
pub data TokenWrite : Type 0 where
  write_token : TokenRow → TokenWrite
  write_revoked : String → String → Time → TokenWrite
  write_seen : Text → Time → TokenWrite

unfoldable pub apply_token_write : List String → TokenWrite → List TokenDbRow → List TokenDbRow
unfolding insert_token revoke_token touch_token_seen
apply_token_write users (write_token t) rows = or_else rows (insert_token users t rows)
apply_token_write users (write_revoked user id now) rows =
    or_else rows (revoke_token user id now rows)
apply_token_write users (write_seen hash now) rows = or_else rows (touch_token_seen hash now rows)

unfoldable pub run_tokens : List String → List TokenWrite → List TokenDbRow → List TokenDbRow
unfolding apply_token_write
run_tokens users [] rows = rows
run_tokens users (w ∷ ws) rows = run_tokens users ws (apply_token_write users w rows)

-- No two rows share an id.
abbrev pub HasUniqueIds : List TokenDbRow → Type 0
HasUniqueIds [] = Unit
HasUniqueIds (r ∷ rs) = (has_token r.id rs ≡ false) × HasUniqueIds rs

pub has_token-stamp_revoked :
    (x user id : String) (at : ℕ) (rows : List TokenDbRow)
    → has_token x (stamp_revoked user id at rows) ≡ has_token x rows
unfolding has_token stamp_revoked
has_token-stamp_revoked x user id at [] = refl
has_token-stamp_revoked x user id at (r ∷ rs) =
    ground (arith, has_token-stamp_revoked x user id at rs)

pub has_token-stamp_seen :
    (x : String) (h : Text) (at : ℕ) (rows : List TokenDbRow)
    → has_token x (stamp_seen h at rows) ≡ has_token x rows
unfolding has_token stamp_seen
has_token-stamp_seen x h at [] = refl
has_token-stamp_seen x h at (r ∷ rs) = ground (arith, has_token-stamp_seen x h at rs)

stamp_revoked-HasUniqueIds :
    (user id : String) (at : ℕ) (rows : List TokenDbRow)
    → HasUniqueIds rows
    → HasUniqueIds (stamp_revoked user id at rows)
unfolding stamp_revoked has_token
stamp_revoked-HasUniqueIds user id at [] keyed = tt
stamp_revoked-HasUniqueIds user id at (r ∷ rs) keyed = elim (Bool-cases (is_revocable user id r)) [
  | inl hit ↦ rw hit (
    has_token-stamp_revoked r.id user id at rs ∙ keyed.0,
    stamp_revoked-HasUniqueIds user id at rs keyed.1,
  )
  | inr miss ↦ rw miss (
    has_token-stamp_revoked r.id user id at rs ∙ keyed.0,
    stamp_revoked-HasUniqueIds user id at rs keyed.1,
  )
]

stamp_seen-HasUniqueIds :
    (h : Text) (at : ℕ) (rows : List TokenDbRow)
    → HasUniqueIds rows
    → HasUniqueIds (stamp_seen h at rows)
unfolding stamp_seen has_token
stamp_seen-HasUniqueIds h at [] keyed = tt
stamp_seen-HasUniqueIds h at (r ∷ rs) keyed = elim (Bool-cases (is_live_hash h r)) [
  | inl hit ↦
      rw hit (has_token-stamp_seen r.id h at rs ∙ keyed.0, stamp_seen-HasUniqueIds h at rs keyed.1)
  | inr miss ↦
      rw miss (has_token-stamp_seen r.id h at rs ∙ keyed.0, stamp_seen-HasUniqueIds h at rs keyed.1)
]

pub insert_token-ok :
    (users : List String) (t : TokenRow) (rows : List TokenDbRow) {rows' : List TokenDbRow}
    → insert_token users t rows ≡ ok rows'
    → (has_token t.id rows ≡ false) × (token_columns t ∷ rows ≡ rows')
unfolding insert_token
insert_token-ok users t rows h =
    let given =
      guard_ok
        (str_eq t.id ""
          || str_eq t.user_id ""
          || is_empty t.hash
          || str_eq t.scopes ""
          || str_eq t.label "")
        token_fields_required _ h in
    let scoped = guard_ok (not (is_known_scope t.scopes)) bad_scopes _ given.1 in
    let timed = guard_ok (is_zero t.created_at) token_fields_required _ scoped.1 in
    let free =
      guard_ok (has_token t.id rows || has_hash t.hash rows || not (has_text t.user_id users))
        token_constraint _ timed.1 in
    (ground (arith, free.0), ok_inj free.1)

pub revoke_token-ok :
    (user id : String) (now : Time) (rows : List TokenDbRow) {rows' : List TokenDbRow}
    → revoke_token user id now rows ≡ ok rows'
    → ((rows_affected user id rows == 0) ≡ false)
      × (stamp_revoked user id (to_seconds now) rows ≡ rows')
unfolding revoke_token
revoke_token-ok user id now rows h =
    let given =
      guard_ok (str_eq user "" || str_eq id "" || is_zero now) token_fields_required _ h in
    let hit = guard_ok (rows_affected user id rows == 0) token_not_found _ given.1 in
    (hit.0, ok_inj hit.1)

touch_token_seen-ok :
    (hash : Text) (now : Time) (rows : List TokenDbRow) {rows' : List TokenDbRow}
    → touch_token_seen hash now rows ≡ ok rows'
    → stamp_seen hash (to_seconds now) rows ≡ rows'
unfolding touch_token_seen
touch_token_seen-ok hash now rows h =
    ok_inj (guard_ok (is_empty hash || is_zero now) token_fields_required _ h).1

or_else_keeps :
    {A : Type 0} (P : A → Type 0) (a : A) (m : Result TokenError A)
    → P a
    → ((b : A) → m ≡ ok b → P b)
    → P (or_else a m)
or_else_keeps P a (ok b) h k = k b refl
or_else_keeps P a (err e) h k = h

-- What an INSERT of a new id and the two updates keep, every write keeps.
pub apply_token_write_keeps :
    (P : List TokenDbRow → Type 0) (users : List String) (rows : List TokenDbRow)
    → ((t : TokenRow) → has_token t.id rows ≡ false → P (token_columns t ∷ rows))
    → ((user id : String) (at : ℕ) → P (stamp_revoked user id at rows))
    → ((hash : Text) (at : ℕ) → P (stamp_seen hash at rows))
    → P rows
    → (w : TokenWrite) → P (apply_token_write users w rows)
unfolding apply_token_write
apply_token_write_keeps P users rows ins rev seen h (write_token t) =
    or_else_keeps P rows (insert_token users t rows) h
      (λ _ done. let new = insert_token-ok users t rows done in subst P new.1 (ins t new.0))
apply_token_write_keeps P users rows ins rev seen h (write_revoked user id now) =
    or_else_keeps P rows (revoke_token user id now rows) h
      (λ _ done. subst P (revoke_token-ok user id now rows done).1 (rev user id (to_seconds now)))
apply_token_write_keeps P users rows ins rev seen h (write_seen hash now) =
    or_else_keeps P rows (touch_token_seen hash now rows) h
      (λ _ done. subst P (touch_token_seen-ok hash now rows done) (seen hash (to_seconds now)))

pub run_tokens-HasUniqueIds :
    (users : List String) (ws : List TokenWrite) (rows : List TokenDbRow)
    → HasUniqueIds rows
    → HasUniqueIds (run_tokens users ws rows)
unfolding run_tokens token_columns
run_tokens-HasUniqueIds users [] rows keyed = keyed
run_tokens-HasUniqueIds users (w ∷ ws) rows keyed = run_tokens-HasUniqueIds users ws _ (
    apply_token_write_keeps HasUniqueIds users rows (λ t new. (new, keyed))
      (λ user id at. stamp_revoked-HasUniqueIds user id at rows keyed)
      (λ hash at. stamp_seen-HasUniqueIds hash at rows keyed) keyed w)
