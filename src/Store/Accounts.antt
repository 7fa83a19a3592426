-- ===== src/Store/Accounts.antt =====
-- internal/store/accounts.go: the Resy accounts of the users. Times are written in milliseconds.
use resy_snipe.Prelude.Sorts.{sort_with}
use resy_snipe.Domain.Dates.{Time, millisecond}
use resy_snipe.Prelude.Results.{Result, err, ok, ◌>>=◌}
use resy_snipe.Prelude.{
  Bool, Option, String, ◌*◌, List, false, is_none, ltb, some, ℕ, if◌then◌else◌, none, str_eq, true,
  ◌&&◌, ◌||◌, ◌∷◌, [], map, suc, ◌==◌, filter, zero,
}
use Prim.Native.String.{compare}
use Prim.Native.Nat.{Ordering}

-- AccountRow.
pub record AccountRow : Type 0 where
  pub id : String
  pub user_id : String
  pub resy_email : String
  pub display_name : String
  pub created_at : Time
  pub disabled_at : Option Time

-- A row of the table accounts; an account of before the users has no owner, NULL, which is `none`.
pub record AccountDbRow : Type 0 where
  pub id : String
  pub user_id : Option String
  pub resy_email : String
  pub display_name : String
  pub created_ms : ℕ
  pub disabled_ms : Option ℕ

pub data AccountError : Type 0 where
  account_fields_required account_not_found account_constraint : AccountError

abbrev pub is_owner : String → Option String → Bool
is_owner user none = false
is_owner user (some owner) = str_eq owner user

abbrev text_or_empty : Option String → String
text_or_empty none = ""
text_or_empty (some t) = t

abbrev time_of_ms : Option ℕ → Option Time
time_of_ms none = none
time_of_ms (some n) = some (n * millisecond)

-- scanAccountRow; the queries select owned rows only.
unfoldable pub scan_account_row : AccountDbRow → AccountRow
scan_account_row r = record {
  id = r.id;
  user_id = text_or_empty r.user_id;
  resy_email = r.resy_email;
  display_name = r.display_name;
  created_at = r.created_ms * millisecond;
  disabled_at = time_of_ms r.disabled_ms;
}

-- The foreign key to an account.
abbrev pub has_account : String → List AccountDbRow → Bool
has_account id [] = false
has_account id (r ∷ rs) = str_eq r.id id || has_account id rs

abbrev pub text_before : String → String → Bool
text_before a b = elim (compare a b) [ Ordering.gt ↦ false | _ ↦ true ]

-- ORDER BY created_at, id.
unfoldable pub opened_before : AccountDbRow → AccountDbRow → Bool
opened_before a b =
    ltb a.created_ms b.created_ms || ((a.created_ms == b.created_ms) && text_before a.id b.id)

-- ListAccountsForUser.
unfoldable pub list_accounts_for_user :
    String → List AccountDbRow → Result AccountError (List AccountRow)
unfolding scan_account_row opened_before
list_accounts_for_user user rows =
    if str_eq user ""
    then err account_fields_required
    else ok (
        map scan_account_row (sort_with opened_before (filter (λ r. is_owner user r.user_id) rows)))

-- WHERE user_id = ? AND resy_email = ?.
unfoldable pub find_account : String → String → List AccountDbRow → Option AccountDbRow
find_account user email [] = none
find_account user email (r ∷ rs) =
    let rest = find_account user email rs in
    if is_owner user r.user_id && str_eq r.resy_email email then some r else rest

abbrev scan_account : Option AccountDbRow → Result AccountError AccountRow
scan_account none = err account_not_found
scan_account (some r) = ok (scan_account_row r)

-- GetAccountByEmail.
unfoldable pub get_account_by_email :
    String → String → List AccountDbRow → Result AccountError AccountRow
unfolding find_account
get_account_by_email user email rows =
    if str_eq user "" || str_eq email ""
    then err account_fields_required
    else scan_account (find_account user email rows)

-- WHERE user_id IS NULL AND resy_email = ?.
abbrev pub is_unclaimed : String → AccountDbRow → Bool
is_unclaimed email r = is_none r.user_id && str_eq r.resy_email email

-- UPDATE accounts SET user_id = ?, and the number of rows affected.
unfoldable pub claim_accounts : String → String → List AccountDbRow → List AccountDbRow × ℕ
claim_accounts user email [] = ([], 0)
claim_accounts user email (r ∷ rs) =
    let (rest, n) = claim_accounts user email rs in
    if is_unclaimed email r then (record r { user_id = some user } ∷ rest, suc n) else (r ∷ rest, n)

abbrev bound_id : Option AccountDbRow → Result AccountError String
bound_id none = err account_not_found
bound_id (some r) = ok r.id

-- The rows that are claimed: none is not found, and two would break UNIQUE (user_id, resy_email). The
-- id is read back before the commit.
abbrev pub on_claimed :
    String → String → List AccountDbRow → ℕ → Result AccountError (String × List AccountDbRow)
on_claimed user email claimed zero = err account_not_found
on_claimed user email claimed (suc zero) =
    bound_id (find_account user email claimed) >>= λ id. ok (id, claimed)
on_claimed user email claimed (suc (suc n)) = err account_constraint

abbrev pub on_existing :
    String
    → String
    → List AccountDbRow
    → Option AccountDbRow
    → Result AccountError (String × List AccountDbRow)
on_existing user email rows (some r) = ok (r.id, rows)
on_existing user email rows none =
    let (claimed, n) = claim_accounts user email rows in on_claimed user email claimed n

-- BindLegacyAccountToUser: a bound account is left; otherwise the unclaimed one becomes the user's.
unfoldable pub bind_legacy_account_to_user :
    String → String → List AccountDbRow → Result AccountError (String × List AccountDbRow)
unfolding find_account claim_accounts
bind_legacy_account_to_user user email rows =
    if str_eq user "" || str_eq email ""
    then err account_fields_required
    else on_existing user email rows (find_account user email rows)
