-- ===== src/Service/Accounts.antt =====
-- Login, ListAccounts and the calls that are not implemented of internal/service/standard_auth.go.
use resy_snipe.Service.Planning.{failure_of, user_required}
use resy_snipe.Prelude.Results.{Result, err, ok}
use resy_snipe.Domain.Dates.{Time}
use resy_snipe.Service.Errors.{
  ServiceError, wrapping, not_implemented, upstream_unavailable, internal, wrapped,
  invalid_argument,
}
use resy_snipe.Service.State.{ServiceEnv, ServiceState, audit}
use resy_snipe.Store.Accounts.{
  AccountRow, bind_legacy_account_to_user, AccountDbRow, AccountError, list_accounts_for_user,
  account_not_found,
}
use resy_snipe.Prelude.{none, List, String, Option, some, if◌then◌else◌, str_eq, map, ◌||◌}
use Prim.Native.String.{◌++◌}

abbrev pub action_account_login : String
action_account_login = "account.login"

abbrev pub action_account_list : String
action_account_list = "account.list"

abbrev pub action_user_invite : String
action_user_invite = "user.invite"

abbrev pub action_user_list : String
action_user_list = "user.list"

-- ResyAuthBackend: from an email address, a password and the table of accounts, the address that it
-- logged in and the table with the row that it left; an account without an owner is the expected one.
abbrev pub AuthBackend : Type 0
AuthBackend = String → String → List AccountDbRow → Result ServiceError String × List AccountDbRow

-- Account.
pub record Account : Type 0 where
  pub id : String
  pub user_id : String
  pub email : String
  pub display_name : String
  pub created_at : Time
  pub disabled_at : Option Time

unfoldable pub account_from_row : AccountRow → Account
account_from_row r = record {
  id = r.id;
  user_id = r.user_id;
  email = r.resy_email;
  display_name = r.display_name;
  created_at = r.created_at;
  disabled_at = r.disabled_at;
}

abbrev pub with_accounts : List AccountDbRow → ServiceState → ServiceState
with_accounts rows s = record s { quest_db = record s.quest_db { accounts = rows } }

abbrev pub unbound : ServiceEnv → AccountError → ServiceError
unbound env account_not_found =
    wrapping upstream_unavailable "Login: " " (no account row materialized after auth)"
unbound env e = internal ("Login bind account: " ++ env.account_error_text e)

-- BindAccountToUser, and what Login makes of its answer.
abbrev pub after_bind :
    ServiceEnv
    → ServiceState
    → Result AccountError (String × List AccountDbRow)
    → Result ServiceError String × ServiceState
after_bind env s (err e) = (err (unbound env e), s)
after_bind env s (ok (id, rows)) = (ok id, with_accounts rows s)

abbrev pub after_auth :
    ServiceEnv
    → String
    → ServiceState
    → Result ServiceError String
    → Result ServiceError String × ServiceState
after_auth env user s (err e) = (err (wrapped "Login: " e), s)
after_auth env user s (ok email) =
    after_bind env s (bind_legacy_account_to_user user email s.quest_db.accounts)

abbrev pub authenticate :
    ServiceEnv
    → Option AuthBackend
    → String
    → String
    → String
    → ServiceState
    → Result ServiceError String × ServiceState
authenticate env none user email password s = (err (wrapping not_implemented "" ""), s)
authenticate env (some auth) user email password s =
    let (answer, rows) = auth email password s.quest_db.accounts in
    after_auth env user (with_accounts rows s) answer

abbrev pub login_target : String → Result ServiceError String → String
login_target email (err e) = email
login_target email (ok id) = if str_eq id "" then email else id

abbrev pub audit_login :
    String
    → String
    → Result ServiceError String × ServiceState
    → Result ServiceError String × ServiceState
audit_login user email (answer, s) =
    (answer, audit user action_account_login (login_target email answer) (failure_of answer) s)

-- Login.
unfoldable pub login :
    ServiceEnv
    → Option AuthBackend
    → String
    → String
    → String
    → ServiceState
    → Result ServiceError String × ServiceState
unfolding audit bind_legacy_account_to_user
login env auth user email password s =
    if str_eq user ""
    then (err (user_required "Login"), s)
    else audit_login user email (
        if str_eq email "" || str_eq password ""
        then (err (wrapping invalid_argument "Login: " ": email and password are required"), s)
        else authenticate env auth user email password s)

abbrev pub accounts_of :
    ServiceEnv → Result AccountError (List AccountRow) → Result ServiceError (List Account)
accounts_of env (err e) = err (internal ("ListAccounts: " ++ env.account_error_text e))
accounts_of env (ok rows) = ok (map account_from_row rows)

-- ListAccounts.
unfoldable pub list_accounts :
    ServiceEnv → String → ServiceState → Result ServiceError (List Account) × ServiceState
unfolding audit list_accounts_for_user account_from_row
list_accounts env user s =
    if str_eq user ""
    then (err (user_required "ListAccounts"), s)
    else let answer = accounts_of env (list_accounts_for_user user s.quest_db.accounts) in
      (answer, audit user action_account_list "" (failure_of answer) s)

abbrev pub unwritten : ServiceError
unwritten = wrapping not_implemented "" ""

-- InviteUser.
unfoldable pub invite_user : String → String → ServiceState → ServiceError × ServiceState
unfolding audit
invite_user user email s = (unwritten, audit user action_user_invite email (some unwritten) s)

-- AcceptInvite.
unfoldable pub accept_invite : ServiceState → ServiceError × ServiceState
accept_invite s = (unwritten, s)

-- ListUsers.
unfoldable pub list_users : String → ServiceState → ServiceError × ServiceState
unfolding audit
list_users user s = (unwritten, audit user action_user_list "" (some unwritten) s)
