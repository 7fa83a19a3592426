-- ===== src/Domain/Goal.antt =====
-- internal/domain/goal.go: what a user wants, and its validation.
use resy_snipe.Prelude.{
  zero, suc, Bool, true, false, ◌&&◌, ◌||◌, Option, none, some, List, String, str_eq, ltb,
  if◌then◌else◌,
}
use resy_snipe.Prelude.Results.{Result, ok, err, ◌>>=◌, ◌>>◌, refuse_if}
use resy_snipe.Prelude.Texts.{Text, codes, text_eq, is_empty, trim_space, to_lower}
use resy_snipe.Domain.Dates.{
  ℤ, pos, negsuc, Time, Date, WallTime, Location, wall_eq, wall_time_after, midnight, date_is_zero,
  start_of,
}
pub mod Validation

-- The sealed union VenueQuery.
pub data VenueQuery : Type 0 where
  url_query : Text → VenueQuery
  slug_query : Text → Text → VenueQuery
  name_query : Text → VenueQuery

pub data TimePriority : Type 0 where
  priority_none earlier later : TimePriority

-- TimePriority.String.
unfoldable pub priority_text : TimePriority → String
priority_text earlier = "earlier"
priority_text later = "later"
priority_text priority_none = "none"

abbrev pub is_priority_none : TimePriority → Bool
is_priority_none priority_none = true
is_priority_none _ = false

pub record TimeWindow : Type 0 where
  pub start : WallTime
  pub end : WallTime
  pub priority : TimePriority

-- TimeWindow.IsZero.
abbrev pub window_is_zero : TimeWindow → Bool
window_is_zero w = wall_eq w.start midnight && wall_eq w.end midnight && is_priority_none w.priority

pub record Constraints : Type 0 where
  pub table_types : List String
  pub any_table : Bool

-- A nil VenueQuery is `none`.
pub record Goal : Type 0 where
  pub venue_query : Option VenueQuery
  pub date : Date
  pub party : ℤ
  pub time_prefs : TimeWindow
  pub account_id : String
  pub constraints : Constraints

pub data GoalError : Type 0 where
  date_in_past date_zero party_non_positive time_window_empty time_window_inverted : GoalError
  venue_query_missing venue_query_host account_missing invalid_venue_url : GoalError

-- The map resyHosts.
abbrev pub is_resy_host : Text → Bool
is_resy_host host = text_eq host (codes "resy.com") || text_eq host (codes "www.resy.com")

abbrev pub non_positive : ℤ → Bool
non_positive (pos zero) = true
non_positive (pos (suc n)) = false
non_positive (negsuc n) = true

-- `hostname` is url.Parse followed by Hostname; `none` is a parse error. `utc` is time.UTC.
module _ (hostname : Text → Option Text) (utc : Location) where
  unfoldable pub validate_venue_query : VenueQuery → Result GoalError (Unit {0})
  validate_venue_query (url_query url) =
      if is_empty (trim_space url) then err venue_query_missing else elim (hostname url) [
        | none ↦ err invalid_venue_url
        | some host ↦ if is_resy_host (to_lower host) then ok tt else err venue_query_host
      ]
  validate_venue_query (slug_query slug city) =
      if is_empty (trim_space slug) || is_empty (trim_space city)
      then err venue_query_missing
      else ok tt
  validate_venue_query (name_query name) =
      if is_empty (trim_space name) then err venue_query_missing else ok tt

  abbrev pub check_venue_query : Option VenueQuery → Result GoalError (Unit {0})
  check_venue_query none = err venue_query_missing
  check_venue_query (some q) = validate_venue_query q

  -- todayStart.
  unfoldable pub today_start : Time → Time
  today_start now = utc.moment (utc.civil now).0 midnight

  unfoldable pub validate : Goal → Time → Result GoalError (Unit {0})
  validate g now = do
    check_venue_query g.venue_query
    refuse_if (str_eq g.account_id "") account_missing
    refuse_if (date_is_zero g.date) date_zero
    refuse_if (ltb (start_of g.date utc) (today_start now)) date_in_past
    refuse_if (non_positive g.party) party_non_positive
    refuse_if (window_is_zero g.time_prefs) time_window_empty
    refuse_if (wall_time_after g.time_prefs.start g.time_prefs.end) time_window_inverted
    ok tt
