-- ===== src/Providers.antt =====
-- internal/providers/provider.go: the seam to a booking backend. A provider is not implemented
-- here; its answers enter the engine as arguments.
use resy_snipe.Domain.Dates.{Date, Time, WallTime, ℤ, is_zero}
use resy_snipe.Prelude.{String, Bool, List, Option, if◌then◌else◌, false, not, ltb}
use resy_snipe.Domain.Intent.{VenueRef}

-- The sentinel errors, and any other.
pub data ProviderError : Type 0 where
  auth_expired mfa_required book_token_expired slot_taken rate_limited : ProviderError
  anti_bot_challenge inventory_empty venue_not_found parse_failure other_error : ProviderError

pub record CalendarDay : Type 0 where
  pub date : Date
  pub available : Bool

pub record Calendar : Type 0 where
  pub venue : VenueRef
  pub days : List CalendarDay

-- ResySlotPayload of internal/domain/payload_resy.go, the one variant of SlotPayload.
pub record ResySlotPayload : Type 0 where
  pub config_id : String
  pub template_id : String
  pub seating_type : String
  pub book_token : String
  pub payment_method_id : ℤ

-- A nil payload is `none`.
pub record Slot : Type 0 where
  pub venue : VenueRef
  pub date : Date
  pub time : WallTime
  pub table_type : String
  pub party_size : ℤ
  pub payload : Option ResySlotPayload

pub record Confirmation : Type 0 where
  pub id : String
  pub booked_at : Time
  pub human_readable : String

-- IsSessionExpired, of the session's ExpiresAt: a zero expiry never passes.
unfoldable pub is_session_expired : Time → Time → Bool
is_session_expired expires_at now = if is_zero expires_at then false else not (ltb now expires_at)
