-- ===== src/Store/Quests/Listing.antt =====
-- ListQuests and ListQuestEvents of internal/store/quests.go: filtered, ordered and cut reads. `%s`
-- of a cursor is parsed by `parse_cursor`, time.Parse of RFC 3339.
use resy_snipe.Store.Idempotency.{to_ms}
use resy_snipe.Prelude.Sorts.{sort_by, sort_with}
use resy_snipe.Prelude.Results.{Result, ok, ◌>>=◌, err}
use resy_snipe.Domain.Snipe.{Event}
use resy_snipe.Domain.Status.{Status}
use resy_snipe.Store.Quests.{
  QuestDbRow, QuestEventRow, status_db_string, QuestDb, QuestStoreError, QuestRow, scan_quest_row,
  cursor_malformed,
}
use resy_snipe.Prelude.{
  Bool, List, String, Option, ltb, str_eq, true, ◌≡◌, false, filter, map, some, suc, ◌&&◌, ◌*◌,
  ◌||◌, ◌∷◌, ◌≤◌, [], if◌then◌else◌, leb, none, take, ◌==◌, zero, ◌<◌, ◌⊎◌,
}
use resy_snipe.Domain.Dates.{ℤ, pos, Time, millisecond, negsuc}
use Prim.Native.String.{compare}
use Prim.Native.Nat.{Ordering}

-- QuestListFilter.
pub record QuestListFilter : Type 0 where
  pub statuses : List Status
  pub account_id : Option String
  pub since : Option Time
  pub until : Option Time
  pub limit : ℤ
  pub cursor : String

-- `IN (…)` of the wanted statuses' names; no status wanted is no condition.
abbrev pub status_among : List Status → String → Bool
status_among [] s = false
status_among (st ∷ sts) s = str_eq (status_db_string st) s || status_among sts s

abbrev pub status_wanted : List Status → String → Bool
status_wanted [] s = true
status_wanted (st ∷ sts) s = status_among (st ∷ sts) s

-- An optional condition.
abbrev pub holds_for {ℓ} : {A : Type ℓ} → (A → Bool) → Option A → Bool
holds_for p none = true
holds_for p (some a) = p a

-- The WHERE clause; `before` is the instant of the cursor.
unfoldable pub row_matches : String → QuestListFilter → Option Time → QuestDbRow → Bool
row_matches user f before r =
    str_eq r.user_id user
    && status_wanted f.statuses r.status
    && holds_for (λ a. str_eq r.account_id a) f.account_id
    && holds_for (λ t. leb (to_ms t) r.created_ms) f.since
    && holds_for (λ t. leb r.created_ms (to_ms t)) f.until
    && holds_for (λ t. ltb r.created_ms (to_ms t)) before

abbrev pub text_after : String → String → Bool
text_after a b = elim (compare a b) [ Ordering.gt ↦ true | _ ↦ false ]

-- ORDER BY created_at DESC, id DESC.
unfoldable pub newer : QuestDbRow → QuestDbRow → Bool
newer a b =
    ltb b.created_ms a.created_ms || ((a.created_ms == b.created_ms) && text_after a.id b.id)

-- LIMIT, where there is one.
abbrev pub limited {ℓ} : {A : Type ℓ} → ℤ → List A → List A
limited (pos zero) xs = xs
limited (pos (suc n)) xs = take (suc n) xs
limited (negsuc n) xs = xs

unfoldable pub scan_all : List QuestDbRow → Result QuestStoreError (List QuestRow)
scan_all [] = ok []
scan_all (r ∷ rs) = do q ← scan_quest_row r; qs ← scan_all rs; ok (q ∷ qs)

-- The rows that the SELECT of ListQuests returns.
unfoldable pub select_quests :
    String → QuestListFilter → Option Time → List QuestDbRow → List QuestDbRow
unfolding row_matches newer
select_quests user f before rows =
    limited f.limit (sort_with newer (filter (row_matches user f before) rows))

-- An empty cursor is none; a cursor that is no time is an error.
unfoldable pub cursor_of : (String → Option Time) → String → Result QuestStoreError (Option Time)
cursor_of parse_cursor c =
    if str_eq c ""
    then ok none
    else elim (parse_cursor c) [ none ↦ err cursor_malformed | some t ↦ ok (some t) ]

-- ListQuests.
unfoldable pub list_quests :
    (String → Option Time)
    → String
    → QuestListFilter
    → QuestDb
    → Result QuestStoreError (List QuestRow)
unfolding cursor_of select_quests scan_all
list_quests parse_cursor user f db = do
  before ← cursor_of parse_cursor f.cursor
  scan_all (select_quests user f before db.quests)

abbrev pub is_event_of : String → String → QuestEventRow → Bool
is_event_of user id e = str_eq e.user_id user && str_eq e.quest_id id

abbrev pub event_of_row : QuestEventRow → Event
event_of_row e = record { kind = e.kind; at = e.at_ms * millisecond; attrs = e.fields }

-- ListQuestEvents: ORDER BY at ASC, id ASC.
unfoldable pub list_quest_events : String → String → ℤ → QuestDb → List Event
list_quest_events user id limit db = map event_of_row (
    limited limit
      (sort_by (λ (e : QuestEventRow). e.at_ms) (filter (is_event_of user id) db.quest_events)))

abbrev ForGiven : {A : Type 0} → (A → Type 0) → Option A → Type 0
ForGiven P none = Unit
ForGiven P (some a) = P a

abbrev IsNamed : List Status → String → Type 0
IsNamed [] s = ⊥
IsNamed (st ∷ sts) s = (s ≡ status_db_string st) ⊎ IsNamed sts s

abbrev IsWanted : List Status → String → Type 0
IsWanted [] s = Unit
IsWanted (st ∷ sts) s = IsNamed (st ∷ sts) s

-- The row is the user's, has one of the statuses where some are given and the account where one is,
-- and was created within the bounds that are given and before the cursor.
abbrev pub IsSelected : String → QuestListFilter → Option Time → QuestDbRow → Type 0
IsSelected user f before r =
    (((((r.user_id ≡ user) × IsWanted f.statuses r.status)
          × ForGiven (λ a. r.account_id ≡ a) f.account_id)
        × ForGiven (λ t. to_ms t ≤ r.created_ms) f.since)
      × ForGiven (λ t. r.created_ms ≤ to_ms t) f.until)
    × ForGiven (λ t. r.created_ms < to_ms t) before
