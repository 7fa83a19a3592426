-- ===== src/Domain/Intent.antt =====
-- internal/domain/intent.go, release.go, venue.go, ids.go and unions.go: what the engine books.
use Prim.Native.String.{◌++◌}
use resy_snipe.Prelude.{ℕ, Bool, Option, List, String, str_eq, if◌then◌else◌, is_none}
use resy_snipe.Prelude.Results.{Result, ok, err}
use resy_snipe.Domain.Dates.{Time, Date, WallTime, Location, ℤ}

pub record VenueRef : Type 0 where
  pub provider : String
  pub ref : String

-- VenueRef.String: "<provider>:<ref>".
unfoldable pub venue_text : VenueRef → String
venue_text v = v.provider ++ ":" ++ v.ref

-- A nil *time.Location is `none`.
pub record Venue : Type 0 where
  pub provider : String
  pub ref : String
  pub name : String
  pub tz : Option Location

unfoldable pub as_ref : Venue → VenueRef
as_ref v = record { provider = v.provider; ref = v.ref }

pub data VenueError : Type 0 where
  provider_required ref_required missing_tz : VenueError

-- Venue.Validate.
pub venue_validate : Venue → Result VenueError (Unit {0})
venue_validate v =
    if str_eq v.provider ""
    then err provider_required
    else if str_eq v.ref ""
    then err ref_required
    else if is_none v.tz
    then err missing_tz
    else ok tt

-- An empty table type means any.
pub record SlotPreference : Type 0 where
  pub time : WallTime
  pub table_type : String

-- The sealed union ReleaseStrategy; the nil interface is `none` where it can occur.
pub data ReleaseStrategy : Type 0 where
  explicit_release : Time → ReleaseStrategy
  discovered_release : Time → Time → ReleaseStrategy
  continuous_release : Time → ReleaseStrategy

pub record Intent : Type 0 where
  pub user : String
  pub venue : VenueRef
  pub date : Date
  pub party_size : ℤ
  pub slot_prefs : List SlotPreference
  pub release : Option ReleaseStrategy

-- BookingPolicy: the engine reads the poll floor only.
pub record BookingPolicy : Type 0 where
  pub max_concurrent : ℕ
  pub poll_floor : ℕ
  pub details_serial : Bool
