-- ===== src/Store/Snipes/Wire.antt =====
-- The texts that internal/store/sqlite.go and intent_codec.go write to the table snipes and read
-- back: the columns are texts, and so are the dates and times inside the JSON of an intent. What
-- the packages time, fmt and encoding/json do is a parameter, and each of them can fail where it
-- does in Go.
use resy_snipe.Domain.Dates.{Date, WallTime, Time, ℤ, is_zero}
use resy_snipe.Domain.Intent.{Intent, SlotPreference, VenueRef}
use resy_snipe.Domain.Snipe.{Receipt, SnipeState, new_snipe_state}
use resy_snipe.Domain.Status.{name}
use resy_snipe.Prelude.Results.{Result, err, ok, ◌>>=◌, map_err}
use resy_snipe.Prelude.{List, Option, String, if◌then◌else◌, none, some, ◌∷◌, [], str_eq}
use resy_snipe.Store.Snipes.{
  ReleaseJson, StoreError, encode_release, decode_release, parse_status, force_status,
}
pub mod ReadBack

-- slotPrefJSON and intentJSON.
pub record SlotPrefJson : Type 0 where
  pub time : String
  pub table_type : String

pub record IntentJson : Type 0 where
  pub user : String
  pub venue : VenueRef
  pub date : String
  pub party_size : ℤ
  pub slot_prefs : List SlotPrefJson
  pub release : Option ReleaseJson

-- fmt.Sprintf with the formats of Date.String and WallTime.String; time.Parse with the layouts
-- 2006-01-02, 15:04:05, 15:04 and RFC3339Nano; Format in UTC with the last; json.Marshal and
-- json.Unmarshal on the structs, with the years that they refuse.
pub record WireFormats : Type 0 where
  pub sprint_date : Date → String
  pub parse_ymd : String → Option Date
  pub sprint_clock : WallTime → String
  pub parse_hms : String → Option WallTime
  pub parse_hm : String → Option WallTime
  pub format_rfc3339 : Time → String
  pub parse_rfc3339 : String → Option Time
  pub intent_text : IntentJson → Option String
  pub read_intent : String → Option IntentJson
  pub result_text : Receipt → Option String
  pub read_result : String → Option Receipt

pub data WireError : Type 0 where
  unencodable bad_json bad_date bad_slot_time bad_time bad_result : WireError
  store_error : StoreError → WireError

abbrev pub or_fail : {A : Type 0} → WireError → Option A → Result WireError A
or_fail e none = err e
or_fail e (some a) = ok a

unfoldable pub parse_date : WireFormats → String → Result WireError Date
parse_date fm text = or_fail bad_date (fm.parse_ymd text)

abbrev or_short : WireFormats → String → Option WallTime → Result WireError WallTime
or_short fm text (some w) = ok w
or_short fm text none = or_fail bad_slot_time (fm.parse_hm text)

-- HH:MM:SS first, then HH:MM.
unfoldable pub parse_wall_time : WireFormats → String → Result WireError WallTime
parse_wall_time fm text = or_short fm text (fm.parse_hms text)

unfoldable pub slot_pref_json : WireFormats → SlotPreference → SlotPrefJson
slot_pref_json fm p = record { time = fm.sprint_clock p.time; table_type = p.table_type }

unfoldable pub slot_pref_jsons : WireFormats → List SlotPreference → List SlotPrefJson
unfolding slot_pref_json
slot_pref_jsons fm [] = []
slot_pref_jsons fm (p ∷ ps) = slot_pref_json fm p ∷ slot_pref_jsons fm ps

-- The loop of UnmarshalIntent: the first time that does not parse ends it.
unfoldable pub read_slot_prefs :
    WireFormats → List SlotPrefJson → Result WireError (List SlotPreference)
unfolding parse_wall_time
read_slot_prefs fm [] = ok []
read_slot_prefs fm (p ∷ ps) = do
  time ← parse_wall_time fm p.time
  rest ← read_slot_prefs fm ps
  ok (record { time = time; table_type = p.table_type } ∷ rest)

unfoldable pub intent_json : WireFormats → Intent → IntentJson
unfolding slot_pref_jsons encode_release
intent_json fm i = record {
  user = i.user;
  venue = i.venue;
  date = fm.sprint_date i.date;
  party_size = i.party_size;
  slot_prefs = slot_pref_jsons fm i.slot_prefs;
  release = encode_release i.release;
}

unfoldable pub marshal_intent : WireFormats → Intent → Result WireError String
unfolding intent_json
marshal_intent fm i = or_fail unencodable (fm.intent_text (intent_json fm i))

unfoldable pub unmarshal_intent : WireFormats → String → Result WireError Intent
unfolding parse_date read_slot_prefs decode_release
unmarshal_intent fm text = do
  raw ← or_fail bad_json (fm.read_intent text)
  date ← parse_date fm raw.date
  slot_prefs ← read_slot_prefs fm raw.slot_prefs
  release ← map_err store_error (decode_release raw.release)
  ok (record {
    user = raw.user;
    venue = raw.venue;
    date = date;
    party_size = raw.party_size;
    slot_prefs = slot_prefs;
    release = release;
  })

-- MarshalResult, and nullableBytes on what it returns.
unfoldable pub marshal_result : WireFormats → Option Receipt → Result WireError (Option String)
marshal_result fm none = ok none
marshal_result fm (some r) = do
  text ← or_fail unencodable (fm.result_text r)
  ok (if str_eq text "" then none else some text)

-- UnmarshalResult, behind the test for NULL and for the empty text.
unfoldable pub unmarshal_result : WireFormats → Option String → Result WireError (Option Receipt)
unmarshal_result fm none = ok none
unmarshal_result fm (some text) =
    let raw = or_fail bad_result (fm.read_result text) >>= λ r. ok (some r) in
    if str_eq text "" then ok none else raw

unfoldable pub format_time : WireFormats → Time → String
format_time fm t = if is_zero t then "" else fm.format_rfc3339 t

unfoldable pub parse_time : WireFormats → String → Result WireError Time
parse_time fm text = if str_eq text "" then ok 0 else or_fail bad_time (fm.parse_rfc3339 text)

unfoldable pub nullable_column : WireFormats → Time → Option String
unfolding format_time
nullable_column fm t = if is_zero t then none else some (format_time fm t)

unfoldable pub parse_nullable : WireFormats → Option String → Result WireError Time
unfolding parse_time
parse_nullable fm none = ok 0
parse_nullable fm (some text) = parse_time fm text

-- The columns as the database holds them.
pub record SnipeText : Type 0 where
  pub id : String
  pub intent_json : String
  pub status : String
  pub scheduled_at : Option String
  pub result_json : Option String
  pub created_at : String
  pub updated_at : String

-- The arguments of the INSERT of CreateSnipe; the hash column is not read back.
unfoldable pub insert_columns : WireFormats → SnipeState → Result WireError SnipeText
unfolding marshal_intent marshal_result name nullable_column format_time
insert_columns fm s = do
  intent ← marshal_intent fm s.intent
  result ← marshal_result fm s.result
  ok (record {
    id = s.id;
    intent_json = intent;
    status = name s.status;
    scheduled_at = nullable_column fm s.scheduled_at;
    result_json = result;
    created_at = format_time fm s.created_at;
    updated_at = format_time fm s.updated_at;
  })

-- scanSnipeRow.
unfoldable pub scan_snipe_row : WireFormats → SnipeText → Result WireError SnipeState
unfolding unmarshal_intent parse_status parse_time parse_nullable unmarshal_result force_status
scan_snipe_row fm r = do
  intent ← unmarshal_intent fm r.intent_json
  status ← map_err store_error (parse_status r.status)
  created ← parse_time fm r.created_at
  updated ← parse_time fm r.updated_at
  scheduled ← parse_nullable fm r.scheduled_at
  result ← unmarshal_result fm r.result_json
  let st = new_snipe_state r.id intent created
  let st' = record st { updated_at = updated; scheduled_at = scheduled; result = result }
  map_err store_error (force_status st' status)
