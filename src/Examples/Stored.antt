-- ===== src/Examples/Stored.antt =====
-- Tests of internal/store/sqlite.go.
use mathlib.Core.Option.{some_inj}
use resy_snipe.Store.Snipes.Wire.ReadBack.{IsSpelled, scan_snipe_row-insert_columns}
use resy_snipe.Domain.Status.{booked, name}
use resy_snipe.Store.Snipes.Wire.{
  IntentJson, SnipeText, WireFormats, insert_columns, intent_json, marshal_intent, slot_pref_jsons,
  marshal_result, slot_pref_json, nullable_column, format_time, scan_snipe_row,
}
use resy_snipe.Domain.Dates.{second, Time, pos}
use mathlib.Core.Bool.{false≢true}
use resy_snipe.Store.Idempotency.Replay.{IsOwned, get_idempotency_result-put}
use resy_snipe.Store.Idempotency.{
  IdempotencyRow, hash_idempotency_key, idempotency_ok, put_idempotency_result,
  get_idempotency_result,
}
use resy_snipe.Store.Snipes.Tables.{transition_snipe_stored}
use resy_snipe.Prelude.Results.{ok}
use resy_snipe.Prelude.{
  ◌∷◌, ◌≡◌, [], some, String, refl, ◌≢◌, ◌++◌, List, str_eq, true, none, str_eq_iff, ◌*◌, not, ltb,
  if◌then◌else◌, ◌==◌, ap, sym, ◌∙◌,
}
use resy_snipe.Examples.{snipe, two_snipes, venue, dinner_date, at_clock, dinner}
use resy_snipe.Store.Snipes.{find_row, read_row, row_of, Db, transition_snipe, encode_release}
use resy_snipe.Domain.Snipe.{Event, found_event, snipe_id, Receipt, SnipeState}

abbrev dinner_json : IntentJson
dinner_json = record {
  user = "usr_1";
  venue = venue;
  date = "2026-06-15";
  party_size = pos 2;
  slot_prefs = record { time = "19:00:00"; table_type = "" } ∷ [];
  release = encode_release dinner.release;
}

abbrev receipt : Receipt
receipt = record { booked_at = 60; confirmation_id = "R-1" }

-- Formats that know the texts of one snipe.
abbrev formats : WireFormats
formats = record {
  sprint_date = λ d. "2026-06-15";
  parse_ymd = λ text. if str_eq text "2026-06-15" then some dinner_date else none;
  sprint_clock = λ w. "19:00:00";
  parse_hms = λ text. if str_eq text "19:00:00" then some (at_clock 19 0 0) else none;
  parse_hm = λ text. none;
  format_rfc3339 = λ t. if t == 10 then "ten" else "forty";
  parse_rfc3339 = λ text. if str_eq text "ten" then some 10 else some 40;
  intent_text = λ j. some "{}";
  read_intent = λ text. if str_eq text "{}" then some dinner_json else none;
  result_text = λ r. some "{R-1}";
  read_result = λ text. if str_eq text "{R-1}" then some receipt else none;
}

abbrev booked_snipe : SnipeState
booked_snipe = record snipe { status = booked; result = some receipt }

booked_snipe-IsSpelled : IsSpelled formats booked_snipe
unfolding intent_json slot_pref_jsons slot_pref_json encode_release
booked_snipe-IsSpelled = record {
  date = refl;
  clocks = (refl, tt);
  created = λ z. (refl, refl);
  updated = λ z. (refl, refl);
  scheduled = λ z. (refl, refl);
  intent = λ text e. ap formats.read_intent (sym (some_inj.0 e));
  result = λ r text is_it e. (
    ap (λ t. str_eq t "") (sym (some_inj.0 e)),
    ap formats.read_result (sym (some_inj.0 e)) ∙ is_it,
  );
}

abbrev booked_columns : SnipeText
booked_columns = record {
  id = "snp_1";
  intent_json = "{}";
  status = "booked";
  scheduled_at = some "forty";
  result_json = some "{R-1}";
  created_at = "ten";
  updated_at = "forty";
}

scan_snipe_row-insert_columns_example :
    (scan_snipe_row formats booked_columns ≡ ok (record booked_snipe { events = [] }))
    × (read_row (row_of booked_snipe) ≡ ok (record booked_snipe { events = [] }))
unfolding insert_columns marshal_intent marshal_result nullable_column format_time name
scan_snipe_row-insert_columns_example =
    scan_snipe_row-insert_columns formats booked_snipe booked_columns booked_snipe-IsSpelled refl

abbrev found_at : Event
found_at = record { kind = found_event; at = 50; attrs = snipe_id "snp_1" ∷ [] }

transition_snipe_stored_example :
    (db' : Db) × (transition_snipe two_snipes snipe found_at ≡ ok db')
    × (find_row "snp_1" db'.snipes
        ≡ some (record (row_of snipe) { created_at = (row_of snipe).created_at }))
    × ((id : String) → id ≢ "snp_1" → find_row id db'.snipes ≡ find_row id two_snipes.snipes)
    × (db'.events ≡ two_snipes.events ++ ("snp_1", found_at) ∷ [])
unfolding find_row row_of
transition_snipe_stored_example =
    transition_snipe_stored two_snipes snipe found_at (row_of snipe) refl

abbrev earlier_result : IdempotencyRow
earlier_result = record {
  key_hash = "usr_2:create_quest:k:p";
  user_id = "usr_2";
  scope = "create_quest";
  plain_hash = "usr_2:create_quest:k";
  target_id = some "qst_1";
  result_code = idempotency_ok;
  result_err = none;
  created_ms = 5;
  expires_ms = 90;
}

-- A digest that is the text itself.
digest : String → String
digest t = t

distinct : str_eq "usr_2:create_quest:k:p" "usr_1:create_quest:k:p" ≢ true
distinct = false≢true

earlier_result-IsOwned :
    IsOwned (hash_idempotency_key digest "usr_1" "create_quest" "k" "p") "usr_1" earlier_result
unfolding digest hash_idempotency_key
earlier_result-IsOwned h =
    absurd (distinct ((str_eq_iff "usr_2:create_quest:k:p" "usr_1:create_quest:k:p").1 h))

get_idempotency_result-put_example :
    (rows' : List IdempotencyRow) × (put_idempotency_result digest "usr_1" "create_quest" "k" "p"
        "qst_9" none
        (3 * second)
        second
        (earlier_result ∷ [])
      ≡ ok rows')
    × ((later : Time)
        → get_idempotency_result digest "usr_1" "create_quest" "k" "p" later rows'
          ≡ ok (record {
            found = true;
            payload_match = true;
            expired = not (ltb later (4 * second));
            target = some "qst_9";
            code = some idempotency_ok;
            err_text = none;
          }))
    × ((other scope' key' payload' : String) (later : Time)
        → other ≢ "usr_1"
        → get_idempotency_result digest other scope' key' payload' later rows'
          ≡ get_idempotency_result digest other scope' key' payload' later (earlier_result ∷ []))
get_idempotency_result-put_example =
    get_idempotency_result-put digest "usr_1" "create_quest" "k" "p" "qst_9" none (3 * second)
      second (earlier_result ∷ []) refl (earlier_result-IsOwned, tt)
