-- ===== src/Store/Snipes/RoundTrip.antt =====
-- Reading back what internal/store/sqlite.go writes of a snipe.
use resy_snipe.Prelude.Results.{ok}
use resy_snipe.Prelude.{Option, ◌≡◌, [], refl, some, none, arith}
use resy_snipe.Domain.Intent.{Intent, ReleaseStrategy, explicit_release}
use resy_snipe.Domain.Status.{Status, can_transition, name, submitted}
use resy_snipe.Domain.Snipe.{transition, new_snipe_state, SnipeState}
use resy_snipe.Domain.Dates.{Time}
use resy_snipe.Store.Snipes.{
  decode_release, force_status, parse_status, read_row, intent_of, encode_release, stored_intent,
  row_of, time_or_zero, nullable_time,
}

-- Every status is read back from its name.
pub parse_status-name : (st : Status) → parse_status (name st) ≡ ok st
unfolding parse_status
parse_status-name submitted = refl
parse_status-name st = refl

-- From Submitted the first path of every status is legal to its end.
pub force_status-submitted :
    (s : SnipeState) (target : Status)
    → force_status (record s { status = submitted }) target ≡ ok (record s { status = target })
unfolding force_status transition can_transition
force_status-submitted s submitted = refl
force_status-submitted s target = refl

-- A release strategy survives its JSON form.
pub decode_release-encode_release :
    (r : Option ReleaseStrategy) → decode_release (encode_release r) ≡ ok r
unfolding decode_release encode_release
decode_release-encode_release none = refl
decode_release-encode_release (some (explicit_release at)) = refl
decode_release-encode_release (some r) = refl

intent_of-stored_intent : (i : Intent) → intent_of (stored_intent i) ≡ ok i
unfolding intent_of stored_intent
intent_of-stored_intent i = rw (decode_release-encode_release i.release)

time_or_zero-nullable_time : (t : Time) → time_or_zero (nullable_time t) ≡ t
time_or_zero-nullable_time t = ground arith

-- A snipe of any status whose values are written as a row is read back as it was, but for its
-- events, which stand in a table of their own: the walk of the transition table never refuses a
-- stored status.
pub read_row-row_of : (s : SnipeState) → read_row (row_of s) ≡ ok (record s { events = [] })
unfolding read_row row_of new_snipe_state
read_row-row_of s =
    rw
      (
        intent_of-stored_intent s.intent,
        parse_status-name s.status,
        time_or_zero-nullable_time s.scheduled_at,
      )
      (force_status-submitted (record s { events = [] }) s.status)
