-- ===== src/Store/Snipes.antt =====
-- internal/store/sqlite.go and intent_codec.go: the tables snipes, events and
-- observed_release_times. A statement works on the list of the table's rows; the wire texts of
-- dates, times and JSON objects are kept as the values that they spell; Snipes/Wire.antt has the
-- texts.
use resy_snipe.Prelude.Results.{Result, err, ok, ◌>>=◌}
use resy_snipe.Domain.Snipe.{SnipeState, new_snipe_state, Event, Receipt, transition}
use resy_snipe.Prelude.{
  List, Option, String, Bool, if◌then◌else◌, none, some, ◌∷◌, [], false, is_none, str_eq, true,
  ◌&&◌, ◌++◌,
}
use resy_snipe.Domain.Dates.{Time, Date, WallTime, ℤ, is_zero}
use resy_snipe.Domain.Intent.{
  Intent, VenueRef, ReleaseStrategy, explicit_release, SlotPreference, discovered_release,
  continuous_release,
}
use resy_snipe.Domain.Status.{
  Status, all_statuses, name, status_eq, submitted, scheduled, discovering, awaiting, finding,
  booking, booked, failed, canceled, expired,
}
pub mod RoundTrip
pub mod Wire
pub mod Tables

pub data ReleaseKind : Type 0 where
  explicit_kind discovered_kind continuous_kind unknown_kind : ReleaseKind

-- releaseJSON: a time that is not given is the zero time.
pub record ReleaseJson : Type 0 where
  pub kind : ReleaseKind
  pub at : Time
  pub probe_from : Time
  pub probe_until : Time
  pub until : Time

pub record StoredIntent : Type 0 where
  pub user : String
  pub venue : VenueRef
  pub date : Date
  pub party_size : ℤ
  pub slot_prefs : List SlotPreference
  pub release : Option ReleaseJson

pub data StoreError : Type 0 where
  not_found unknown_status no_transition_path unknown_release_kind already_exists : StoreError

unfoldable pub encode_release : Option ReleaseStrategy → Option ReleaseJson
encode_release none = none
encode_release (some (explicit_release at)) =
    some (record { kind = explicit_kind; at = at; probe_from = 0; probe_until = 0; until = 0 })
encode_release (some (discovered_release from to)) =
    some (record { kind = discovered_kind; at = 0; probe_from = from; probe_until = to; until = 0 })
encode_release (some (continuous_release until)) =
    some (record { kind = continuous_kind; at = 0; probe_from = 0; probe_until = 0; until = until })

decode_kind : ReleaseKind → ReleaseJson → Result StoreError (Option ReleaseStrategy)
decode_kind explicit_kind j = ok (some (explicit_release j.at))
decode_kind discovered_kind j = ok (some (discovered_release j.probe_from j.probe_until))
decode_kind continuous_kind j = ok (some (continuous_release j.until))
decode_kind unknown_kind j = err unknown_release_kind

unfoldable pub decode_release : Option ReleaseJson → Result StoreError (Option ReleaseStrategy)
unfolding decode_kind
decode_release none = ok none
decode_release (some j) = decode_kind j.kind j

unfoldable pub stored_intent : Intent → StoredIntent
unfolding encode_release
stored_intent i = record {
  user = i.user;
  venue = i.venue;
  date = i.date;
  party_size = i.party_size;
  slot_prefs = i.slot_prefs;
  release = encode_release i.release;
}

unfoldable pub intent_of : StoredIntent → Result StoreError Intent
unfolding decode_release
intent_of j = do
  release ← decode_release j.release
  ok (record {
    user = j.user;
    venue = j.venue;
    date = j.date;
    party_size = j.party_size;
    slot_prefs = j.slot_prefs;
    release = release;
  })

pub record SnipeRow : Type 0 where
  pub id : String
  pub intent_json : StoredIntent
  pub status : String
  pub scheduled_at : Option Time
  pub result_json : Option Receipt
  pub created_at : Time
  pub updated_at : Time

-- nullableTime.
abbrev pub nullable_time : Time → Option Time
nullable_time t = if is_zero t then none else some t

-- The columns that CreateSnipe and TransitionSnipe write.
unfoldable pub row_of : SnipeState → SnipeRow
row_of s = record {
  id = s.id;
  intent_json = stored_intent s.intent;
  status = name s.status;
  scheduled_at = nullable_time s.scheduled_at;
  result_json = s.result;
  created_at = s.created_at;
  updated_at = s.updated_at;
}

parse_status_among : String → List Status → Result StoreError Status
parse_status_among text [] = err unknown_status
parse_status_among text (st ∷ rest) =
    if str_eq (name st) text then ok st else parse_status_among text rest

unfoldable pub parse_status : String → Result StoreError Status
unfolding parse_status_among all_statuses name
parse_status text = parse_status_among text all_statuses

-- statusPaths: the sequences to try, in order.
unfoldable pub status_paths : Status → List (List Status)
status_paths submitted = (submitted ∷ []) ∷ []
status_paths scheduled = (submitted ∷ scheduled ∷ []) ∷ []
status_paths discovering =
    (submitted ∷ discovering ∷ []) ∷ (submitted ∷ scheduled ∷ discovering ∷ []) ∷ []
status_paths awaiting =
    (submitted ∷ scheduled ∷ awaiting ∷ []) ∷ (submitted ∷ discovering ∷ awaiting ∷ []) ∷ []
status_paths finding = (submitted ∷ scheduled ∷ awaiting ∷ finding ∷ []) ∷ []
status_paths booking = (submitted ∷ scheduled ∷ awaiting ∷ finding ∷ booking ∷ []) ∷ []
status_paths booked = (submitted ∷ scheduled ∷ awaiting ∷ finding ∷ booking ∷ booked ∷ []) ∷ []
status_paths failed = (submitted ∷ failed ∷ []) ∷ []
status_paths canceled = (submitted ∷ canceled ∷ []) ∷ []
status_paths expired = (submitted ∷ scheduled ∷ expired ∷ []) ∷ []

-- The inner search: the part of a path from the present status on, if it stands there.
skip_to : Status → List Status → Option (List Status)
skip_to st [] = none
skip_to st (p ∷ path) = if status_eq p st then some (p ∷ path) else skip_to st path

-- The inner loop: the snipe as far as it came, and whether every move was made.
walk_path : SnipeState → List Status → SnipeState × Bool
walk_path s [] = (s, true)
walk_path s (p ∷ path) =
    let rest = walk_path s path in
    let moved : SnipeState × Bool = elim (transition s p) [
      | err e ↦ (s, false)
      | ok s' ↦ walk_path s' path
    ] in
    if status_eq p s.status then rest else moved

try_paths : SnipeState → Status → List (List Status) → Result StoreError SnipeState
unfolding skip_to walk_path
try_paths s target [] = err no_transition_path
try_paths s target (path ∷ paths) =
    let skipped = try_paths s target paths in
    elim (skip_to s.status path) [
      | none ↦ skipped
      | some rest ↦
          let (s', all_moved) = walk_path s rest in
          let next = try_paths s' target paths in
          if all_moved && status_eq s'.status target then ok s' else next
    ]

-- forceStatus.
unfoldable pub force_status : SnipeState → Status → Result StoreError SnipeState
unfolding try_paths status_paths
force_status s target =
    if status_eq s.status target then ok s else try_paths s target (status_paths target)

abbrev pub time_or_zero : Option Time → Time
time_or_zero none = 0
time_or_zero (some t) = t

-- What scanSnipeRow makes of the values in a row.
unfoldable pub read_row : SnipeRow → Result StoreError SnipeState
read_row r = do
  intent ← intent_of r.intent_json
  status ← parse_status r.status
  let st = new_snipe_state r.id intent r.created_at
  let st' = record st {
    updated_at = r.updated_at;
    scheduled_at = time_or_zero r.scheduled_at;
    result = r.result_json;
  }
  force_status st' status

pub record ObservedRelease : Type 0 where
  pub venue : VenueRef
  pub observed_local_time : WallTime
  pub days_offset : ℤ
  pub observed_at : Time

pub record Db : Type 0 where
  pub snipes : List SnipeRow
  pub events : List (String × Event)
  pub observed : List ObservedRelease

unfoldable pub find_row : String → List SnipeRow → Option SnipeRow
find_row id [] = none
find_row id (r ∷ rs) = if str_eq r.id id then some r else find_row id rs

-- UPDATE … WHERE id = ?: every row of the id, and whether there was one.
unfoldable pub update_row : SnipeRow → List SnipeRow → List SnipeRow × Bool
update_row new [] = ([], false)
update_row new (r ∷ rs) =
    let (rest, found) = update_row new rs in
    if str_eq r.id new.id
    then (record new { created_at = r.created_at } ∷ rest, true)
    else (r ∷ rest, found)

-- CreateSnipe: the id is the primary key.
unfoldable pub create_snipe : Db → SnipeState → Result StoreError Db
unfolding find_row row_of
create_snipe db s =
    if is_none (find_row s.id db.snipes)
    then ok (record db { snipes = db.snipes ++ row_of s ∷ [] })
    else err already_exists

-- GetSnipe.
unfoldable pub get_snipe : Db → String → Result StoreError SnipeState
unfolding find_row read_row
get_snipe db id = elim (find_row id db.snipes) [ none ↦ err not_found | some r ↦ read_row r ]

-- AppendEvent: the foreign key wants the snipe's row.
unfoldable pub append_event : Db → String → Event → Result StoreError Db
unfolding find_row
append_event db id ev =
    if is_none (find_row id db.snipes)
    then err not_found
    else ok (record db { events = db.events ++ (id, ev) ∷ [] })

-- TransitionSnipe: one transaction, so both writes or neither.
unfoldable pub transition_snipe : Db → SnipeState → Event → Result StoreError Db
unfolding update_row row_of
transition_snipe db s ev =
    let (rows, found) = update_row (row_of s) db.snipes in
    if found
    then ok (record db { snipes = rows; events = db.events ++ (s.id, ev) ∷ [] })
    else err not_found

abbrev same_venue : VenueRef → VenueRef → Bool
same_venue a b = str_eq a.provider b.provider && str_eq a.ref b.ref

insert_observed : ObservedRelease → List ObservedRelease → List ObservedRelease
insert_observed o [] = o ∷ []
insert_observed o (p ∷ ps) = if same_venue p.venue o.venue then o ∷ ps else p ∷ insert_observed o ps

-- UpsertObserved, keyed by the venue.
unfoldable pub upsert_observed : Db → ObservedRelease → Db
unfolding insert_observed
upsert_observed db o = record db { observed = insert_observed o db.observed }
