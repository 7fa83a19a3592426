-- ===== src/Store/Tokens.antt =====
-- internal/store/tokens.go: the bearer tokens. Times are written in whole seconds, rounded down. The
-- order of the list of rows does not count: a hash is unique, and the listing sorts.
use resy_snipe.Prelude.Sorts.{sort_with}
use resy_snipe.Store.Quests.{has_text}
use resy_snipe.Store.Accounts.{text_before}
use resy_snipe.Prelude.Results.{Result, err, ok}
use resy_snipe.Prelude.Texts.{Text, text_eq, is_empty}
use resy_snipe.Domain.Dates.{Time, second, is_zero}
use resy_snipe.Prelude.{
  Bool, List, Option, String, none, ◌*◌, false, ltb, str_eq, ℕ, if◌then◌else◌, some, ◌&&◌, ◌/◌,
  ◌||◌, ◌∷◌, [], is_none, suc, ◌==◌, map, not, filter,
}
pub mod Writes
pub mod Revoked

-- TokenRow; the hash is a list of bytes.
pub record TokenRow : Type 0 where
  pub id : String
  pub user_id : String
  pub hash : Text
  pub scopes : String
  pub label : String
  pub created_at : Time
  pub last_seen : Option Time
  pub revoked_at : Option Time

-- A row of the table tokens; NULL is `none`.
pub record TokenDbRow : Type 0 where
  pub id : String
  pub user_id : String
  pub hash : Text
  pub scopes : String
  pub label : String
  pub created_s : ℕ
  pub last_seen_s : Option ℕ
  pub revoked_s : Option ℕ

pub data TokenError : Type 0 where
  token_fields_required bad_scopes token_constraint token_not_found : TokenError

abbrev pub to_seconds : Time → ℕ
to_seconds t = t / second

abbrev time_of_seconds : Option ℕ → Option Time
time_of_seconds none = none
time_of_seconds (some n) = some (n * second)

-- scanTokenRow.
unfoldable pub scan_token_row : TokenDbRow → TokenRow
scan_token_row r = record {
  id = r.id;
  user_id = r.user_id;
  hash = r.hash;
  scopes = r.scopes;
  label = r.label;
  created_at = r.created_s * second;
  last_seen = time_of_seconds r.last_seen_s;
  revoked_at = time_of_seconds r.revoked_s;
}

-- The primary key.
unfoldable pub has_token : String → List TokenDbRow → Bool
has_token id [] = false
has_token id (r ∷ rs) = str_eq r.id id || has_token id rs

-- The unique index on the hashes.
unfoldable pub has_hash : Text → List TokenDbRow → Bool
has_hash hash [] = false
has_hash hash (r ∷ rs) = text_eq r.hash hash || has_hash hash rs

abbrev pub is_known_scope : String → Bool
is_known_scope s = str_eq s "user" || str_eq s "operator"

-- The columns of the INSERT; the others are NULL.
unfoldable pub token_columns : TokenRow → TokenDbRow
token_columns t = record {
  id = t.id;
  user_id = t.user_id;
  hash = t.hash;
  scopes = t.scopes;
  label = t.label;
  created_s = to_seconds t.created_at;
  last_seen_s = none;
  revoked_s = none;
}

-- InsertToken; the user must exist, and the id and the hash must be new.
unfoldable pub insert_token :
    List String → TokenRow → List TokenDbRow → Result TokenError (List TokenDbRow)
unfolding has_token has_hash token_columns
insert_token users t rows =
    if str_eq t.id ""
      || str_eq t.user_id ""
      || is_empty t.hash
      || str_eq t.scopes ""
      || str_eq t.label ""
    then err token_fields_required
    else if not (is_known_scope t.scopes)
    then err bad_scopes
    else if is_zero t.created_at
    then err token_fields_required
    else if has_token t.id rows || has_hash t.hash rows || not (has_text t.user_id users)
    then err token_constraint
    else ok (token_columns t ∷ rows)

-- WHERE hash = ? AND revoked_at IS NULL.
abbrev pub is_live_hash : Text → TokenDbRow → Bool
is_live_hash hash r = text_eq r.hash hash && is_none r.revoked_s

unfoldable pub find_live : Text → List TokenDbRow → Result TokenError TokenRow
unfolding scan_token_row
find_live hash [] = err token_not_found
find_live hash (r ∷ rs) =
    let rest = find_live hash rs in if is_live_hash hash r then ok (scan_token_row r) else rest

-- FindTokenByHash.
unfoldable pub find_token_by_hash : Text → List TokenDbRow → Result TokenError TokenRow
unfolding find_live
find_token_by_hash hash rows =
    if is_empty hash then err token_fields_required else find_live hash rows

-- ORDER BY created_at, id.
unfoldable pub issued_before : TokenDbRow → TokenDbRow → Bool
issued_before a b =
    ltb a.created_s b.created_s || ((a.created_s == b.created_s) && text_before a.id b.id)

-- ListTokensForUser.
unfoldable pub list_tokens_for_user : String → List TokenDbRow → Result TokenError (List TokenRow)
unfolding issued_before scan_token_row
list_tokens_for_user user rows =
    if str_eq user ""
    then err token_fields_required
    else ok
        (map scan_token_row (sort_with issued_before (filter (λ r. str_eq r.user_id user) rows)))

-- WHERE id = ? AND user_id = ? AND revoked_at IS NULL.
abbrev pub is_revocable : String → String → TokenDbRow → Bool
is_revocable user id r = str_eq r.id id && str_eq r.user_id user && is_none r.revoked_s

-- UPDATE tokens SET revoked_at = ?.
unfoldable pub stamp_revoked : String → String → ℕ → List TokenDbRow → List TokenDbRow
stamp_revoked user id at [] = []
stamp_revoked user id at (r ∷ rs) =
    let rest = stamp_revoked user id at rs in
    if is_revocable user id r then record r { revoked_s = some at } ∷ rest else r ∷ rest

-- RowsAffected of that update.
unfoldable pub rows_affected : String → String → List TokenDbRow → ℕ
rows_affected user id [] = 0
rows_affected user id (r ∷ rs) =
    let rest = rows_affected user id rs in if is_revocable user id r then suc rest else rest

-- RevokeToken.
unfoldable pub revoke_token :
    String → String → Time → List TokenDbRow → Result TokenError (List TokenDbRow)
unfolding stamp_revoked rows_affected
revoke_token user id now rows =
    if str_eq user "" || str_eq id "" || is_zero now
    then err token_fields_required
    else if rows_affected user id rows == 0
    then err token_not_found
    else ok (stamp_revoked user id (to_seconds now) rows)

-- UPDATE tokens SET last_seen = ?.
unfoldable pub stamp_seen : Text → ℕ → List TokenDbRow → List TokenDbRow
stamp_seen hash at [] = []
stamp_seen hash at (r ∷ rs) =
    let rest = stamp_seen hash at rs in
    if is_live_hash hash r then record r { last_seen_s = some at } ∷ rest else r ∷ rest

-- TouchTokenSeen.
unfoldable pub touch_token_seen :
    Text → Time → List TokenDbRow → Result TokenError (List TokenDbRow)
unfolding stamp_seen
touch_token_seen hash now rows =
    if is_empty hash || is_zero now
    then err token_fields_required
    else ok (stamp_seen hash (to_seconds now) rows)
