-- ===== src/Store/Users.antt =====
-- internal/store/users.go: the listing of the users for the operator.
use resy_snipe.Store.Accounts.{text_before}
use resy_snipe.Prelude.Sorts.{sort_with}
use resy_snipe.Prelude.Results.{Result, ok, ◌>>=◌, err}
use resy_snipe.Domain.Dates.{Time, millisecond}
use resy_snipe.Prelude.{
  Bool, Option, String, ℕ, ltb, some, ◌==◌, ◌||◌, List, if◌then◌else◌, str_eq, true, ◌&&◌, false,
  none, not, ◌*◌, ◌∷◌, [],
}

-- UserRow.
pub record UserRow : Type 0 where
  pub id : String
  pub email : String
  pub role : String
  pub created_at : Time
  pub invited_by : Option String
  pub disabled_at : Option Time

-- A value of created_at or disabled_at as SQLite keeps it: milliseconds as an integer, or a text that is
-- not a number.
pub data UserStamp : Type 0 where
  stamp_ms : ℕ → UserStamp
  stamp_text : String → UserStamp

-- A row of the table users; NULL is `none`.
pub record UserDbRow : Type 0 where
  pub id : String
  pub email : String
  pub role : String
  pub created : UserStamp
  pub invited_by : Option String
  pub disabled : Option UserStamp

pub data UserError : Type 0 where
  unrecognized_timestamp : UserError

-- The order of SQLite: integers before texts.
abbrev pub stamp_before : UserStamp → UserStamp → Bool
stamp_before (stamp_ms a) (stamp_ms b) = ltb a b
stamp_before (stamp_ms a) (stamp_text b) = true
stamp_before (stamp_text a) (stamp_ms b) = false
stamp_before (stamp_text a) (stamp_text b) = text_before a b && not (str_eq a b)

abbrev pub same_stamp : UserStamp → UserStamp → Bool
same_stamp (stamp_ms a) (stamp_ms b) = a == b
same_stamp (stamp_text a) (stamp_text b) = str_eq a b
same_stamp _ _ = false

-- ORDER BY created_at, id.
unfoldable pub joined_before : UserDbRow → UserDbRow → Bool
joined_before a b =
    stamp_before a.created b.created || (same_stamp a.created b.created && text_before a.id b.id)

abbrev text_given : Option String → Option String
text_given none = none
text_given (some t) = if str_eq t "" then none else some t

-- `parse_strftime` and `parse_rfc3339` are time.Parse with the two layouts.
module _ (parse_strftime parse_rfc3339 : String → Option Time) where
  abbrev pub parse_text_stamp : String → Result UserError Time
  parse_text_stamp t = elim (parse_strftime t) [
    | some at ↦ ok at
    | none ↦ elim (parse_rfc3339 t) [ some at ↦ ok at | none ↦ err unrecognized_timestamp ]
  ]

  -- parseUserTimestamp; the empty text is Go's zero time.
  unfoldable pub parse_user_timestamp : UserStamp → Result UserError Time
  parse_user_timestamp (stamp_ms n) = ok (n * millisecond)
  parse_user_timestamp (stamp_text t) = if str_eq t "" then ok 0 else parse_text_stamp t

  abbrev pub parse_disabled : Option UserStamp → Result UserError (Option Time)
  parse_disabled none = ok none
  parse_disabled (some (stamp_ms n)) = ok (some (n * millisecond))
  parse_disabled (some (stamp_text t)) =
      if str_eq t "" then ok none else (parse_text_stamp t >>= λ at. ok (some at))

  unfoldable pub scan_user_row : UserDbRow → Result UserError UserRow
  unfolding parse_user_timestamp
  scan_user_row r = do
    created ← parse_user_timestamp r.created
    disabled ← parse_disabled r.disabled
    ok (record {
      id = r.id;
      email = r.email;
      role = r.role;
      created_at = created;
      invited_by = text_given r.invited_by;
      disabled_at = disabled;
    })

  unfoldable pub scan_users : List UserDbRow → Result UserError (List UserRow)
  unfolding scan_user_row
  scan_users [] = ok []
  scan_users (r ∷ rs) = do u ← scan_user_row r; us ← scan_users rs; ok (u ∷ us)

  -- ListUsers; one row that cannot be read fails the listing.
  unfoldable pub list_user_rows : List UserDbRow → Result UserError (List UserRow)
  unfolding scan_users joined_before
  list_user_rows rows = scan_users (sort_with joined_before rows)
