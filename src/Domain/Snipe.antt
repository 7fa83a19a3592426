-- ===== src/Domain/Snipe.antt =====
-- internal/domain/snipestate.go, event.go and the error of status.go: one snipe and its guard.
use resy_snipe.Prelude.{ℕ, Option, none, List, [], String, if◌then◌else◌, not}
use resy_snipe.Prelude.Results.{Result, ok, err}
use resy_snipe.Domain.Dates.{Time}
use resy_snipe.Domain.Intent.{Intent}
use resy_snipe.Domain.Status.{Status, submitted, can_transition}

-- Result of snipestate.go.
pub record Receipt : Type 0 where
  pub booked_at : Time
  pub confirmation_id : String

pub data EventType : Type 0 where
  submitted_event scheduled_event discovered_event released_event found_event : EventType
  book_attempted_event booked_event failed_event canceled_event expired_event : EventType

-- The attributes of an event that the code attaches; a log key each.
pub data Attr : Type 0 where
  snipe_id venue_ref intent_hash reason err_text booked_as : String → Attr
  scheduled_at probe_from probe_until observed_at until : Time → Attr
  slot_count : ℕ → Attr

pub record Event : Type 0 where
  pub kind : EventType
  pub at : Time
  pub attrs : List Attr

pub record SnipeState : Type 0 where
  pub id : String
  pub intent : Intent
  pub status : Status
  pub scheduled_at : Time
  pub result : Option Receipt
  pub events : List Event
  pub created_at : Time
  pub updated_at : Time

-- NewSnipeState: the zero time stands in ScheduledAt.
unfoldable pub new_snipe_state : String → Intent → Time → SnipeState
new_snipe_state id intent created_at = record {
  id = id;
  intent = intent;
  status = submitted;
  scheduled_at = 0;
  result = none;
  events = [];
  created_at = created_at;
  updated_at = created_at;
}

-- InvalidTransitionError.
pub record InvalidTransition : Type 0 where
  pub from : Status
  pub to : Status

-- SnipeState.Transition: UpdatedAt is left alone.
unfoldable pub transition : SnipeState → Status → Result InvalidTransition SnipeState
transition s to =
    if not (can_transition s.status to)
    then err (record { from = s.status; to = to })
    else ok (record s { status = to })
