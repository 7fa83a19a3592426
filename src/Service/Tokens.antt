-- ===== src/Service/Tokens.antt =====
-- IssueToken, RevokeToken and ListTokens of internal/service/standard_auth.go.
pub mod Issued
use resy_snipe.Service.Planning.{failure_of, user_required}
use resy_snipe.Service.Errors.{
  ServiceError, wrapping, internal, not_found, wrapped, invalid_argument,
}
use resy_snipe.Prelude.Results.{Result, err, ok, ◌>>=◌, map_err}
use resy_snipe.Domain.Dates.{Time}
use resy_snipe.Prelude.Texts.{Text, codes}
use resy_snipe.Service.Authority.{require_operator_scope, Caller}
use resy_snipe.Service.State.{audit, ServiceState}
use resy_snipe.Store.Tokens.{
  TokenError, TokenRow, insert_token, TokenDbRow, list_tokens_for_user, revoke_token,
  token_not_found, is_known_scope,
}
use resy_snipe.Prelude.{
  Bool, Option, String, List, none, some, true, false, if◌then◌else◌, not, str_eq, map,
}
use Prim.Native.String.{◌++◌}

abbrev pub action_token_issue : String
action_token_issue = "token.issue"

abbrev pub action_token_revoke : String
action_token_revoke = "token.revoke"

abbrev pub action_token_list : String
action_token_list = "token.list"

-- blake2b.Sum256, the base32 and the hex encoding, %q, and the texts of the store's errors.
pub record TokenEnv : Type 0 where
  pub sum256 : Text → Text
  pub base32 : Text → String
  pub hex : Text → String
  pub quote : String → String
  pub token_error_text : TokenError → String

-- BearerToken.
pub record BearerToken : Type 0 where
  pub id : String
  pub token : String
  pub label : String
  pub scope : String
  pub created_at : Time

-- Token.
pub record Token : Type 0 where
  pub id : String
  pub user_id : String
  pub scope : String
  pub label : String
  pub created_at : Time
  pub last_seen : Option Time
  pub revoked_at : Option Time

-- A call of IssueToken, with what rand.Read gives in it: the bytes of the token and those of its id,
-- or the text of an error.
pub record IssueCall : Type 0 where
  pub ctx : Option Caller
  pub user : String
  pub label : String
  pub scope : String
  pub raw : Result String Text
  pub id_bytes : Result String Text
  pub now : Time

abbrev pub read_bytes : String → Result String Text → Result ServiceError Text
read_bytes call (err t) = err (internal (call ++ ": " ++ t))
read_bytes call (ok bytes) = ok bytes

abbrev pub require : Bool → ServiceError → Result ServiceError (Unit {0})
require true e = ok tt
require false e = err e

abbrev pub plaintext_of : TokenEnv → Text → String
plaintext_of tenv raw = "tok_" ++ tenv.base32 raw

-- The row that IssueToken inserts.
unfoldable pub token_record : TokenEnv → IssueCall → Text → Text → TokenRow
token_record tenv c raw id_bytes = record {
  id = "tok_" ++ tenv.hex id_bytes;
  user_id = c.user;
  hash = tenv.sum256 (codes (plaintext_of tenv raw));
  scopes = c.scope;
  label = c.label;
  created_at = c.now;
  last_seen = none;
  revoked_at = none;
}

-- The conditions before anything is read, in the order of the code.
unfoldable pub issue_checked : TokenEnv → IssueCall → Result ServiceError (Unit {0})
unfolding require_operator_scope
issue_checked tenv c = do
  _ ← map_err (wrapped "IssueToken: ") (require_operator_scope c.ctx)
  _ ← require (not (str_eq c.user "")) (user_required "IssueToken")
  _ ←
      require (not (str_eq c.label ""))
        (wrapping invalid_argument "IssueToken: " ": label is required")
  require (is_known_scope c.scope) (
      wrapping invalid_argument "IssueToken: "
        (": scope must be 'user' or 'operator', got " ++ tenv.quote c.scope))

-- The token, and the table with its row.
unfoldable pub mint :
    TokenEnv
    → IssueCall
    → List String
    → List TokenDbRow
    → Result ServiceError (BearerToken × List TokenDbRow)
unfolding issue_checked token_record insert_token
mint tenv c users rows = do
  _ ← issue_checked tenv c
  raw ← read_bytes "IssueToken" c.raw
  id_bytes ← read_bytes "IssueToken" c.id_bytes
  table ←
      map_err (λ e. internal ("IssueToken: " ++ tenv.token_error_text e))
        (insert_token users (token_record tenv c raw id_bytes) rows)
  ok (
    record {
      id = "tok_" ++ tenv.hex id_bytes;
      token = plaintext_of tenv raw;
      label = c.label;
      scope = c.scope;
      created_at = c.now;
    },
    table,
  )

abbrev pub issued :
    IssueCall
    → ServiceState
    → Result ServiceError (BearerToken × List TokenDbRow)
    → Result ServiceError BearerToken × ServiceState
issued c s (err e) = (err e, audit c.user action_token_issue c.label (some e) s)
issued c s (ok (t, table)) = (
  ok t,
  audit c.user action_token_issue (if str_eq t.id "" then c.label else t.id) none
      (record s { token_rows = table }),
)

-- IssueToken.
unfoldable pub issue_token :
    TokenEnv → IssueCall → ServiceState → Result ServiceError BearerToken × ServiceState
unfolding audit mint
issue_token tenv c s = issued c s (mint tenv c s.quest_db.users s.token_rows)

-- What the adapter and RevokeToken make of the store's errors.
abbrev pub unrevoked : TokenEnv → TokenError → ServiceError
unrevoked tenv token_not_found = wrapping not_found "" ""
unrevoked tenv e = internal ("RevokeToken: " ++ tenv.token_error_text e)

unfoldable pub revoke_checked :
    TokenEnv
    → Option Caller
    → String
    → String
    → Time
    → List TokenDbRow
    → Result ServiceError (List TokenDbRow)
unfolding require_operator_scope revoke_token
revoke_checked tenv ctx user id now rows = do
  _ ← map_err (wrapped "RevokeToken: ") (require_operator_scope ctx)
  _ ← require (not (str_eq user "")) (user_required "RevokeToken")
  _ ←
      require (not (str_eq id ""))
        (wrapping invalid_argument "RevokeToken: " ": tokenID is required")
  map_err (unrevoked tenv) (revoke_token user id now rows)

abbrev pub revoked :
    String
    → String
    → ServiceState
    → Result ServiceError (List TokenDbRow)
    → Option ServiceError × ServiceState
revoked user id s (err e) = (some e, audit user action_token_revoke id (some e) s)
revoked user id s (ok table) =
    (none, audit user action_token_revoke id none (record s { token_rows = table }))

-- RevokeToken.
unfoldable pub revoke_bearer :
    TokenEnv
    → Option Caller
    → String
    → String
    → Time
    → ServiceState
    → Option ServiceError × ServiceState
unfolding audit revoke_checked
revoke_bearer tenv ctx user id now s =
    revoked user id s (revoke_checked tenv ctx user id now s.token_rows)

unfoldable pub token_from_row : TokenRow → Token
token_from_row r = record {
  id = r.id;
  user_id = r.user_id;
  scope = r.scopes;
  label = r.label;
  created_at = r.created_at;
  last_seen = r.last_seen;
  revoked_at = r.revoked_at;
}

unfoldable pub listed_tokens :
    TokenEnv → Option Caller → String → List TokenDbRow → Result ServiceError (List Token)
unfolding require_operator_scope list_tokens_for_user token_from_row
listed_tokens tenv ctx user rows = do
  _ ← map_err (wrapped "ListTokens: ") (require_operator_scope ctx)
  _ ← require (not (str_eq user "")) (user_required "ListTokens")
  found ←
      map_err (λ e. internal ("ListTokens: " ++ tenv.token_error_text e))
        (list_tokens_for_user user rows)
  ok (map token_from_row found)

-- ListTokens.
unfoldable pub list_tokens :
    TokenEnv
    → Option Caller
    → String
    → ServiceState
    → Result ServiceError (List Token) × ServiceState
unfolding audit listed_tokens
list_tokens tenv ctx user s =
    let answer = listed_tokens tenv ctx user s.token_rows in
    (answer, audit user action_token_list "" (failure_of answer) s)
