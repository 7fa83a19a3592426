-- ===== src/Store/Snipes/Wire/ReadBack.antt =====
-- Reading back the texts that internal/store/sqlite.go writes of a snipe.
use resy_snipe.Prelude.{
  Option, ◌≡◌, String, false, some, All, [], str_eq, arith, subst, List, ◌∷◌, refl, Bool,
  if◌then◌else◌, ap, none, sym, true, ◌∙◌,
}
use resy_snipe.Domain.Dates.{Time, is_zero}
use resy_snipe.Domain.Intent.{SlotPreference}
use resy_snipe.Domain.Snipe.{SnipeState, new_snipe_state, Receipt}
use resy_snipe.Store.Snipes.Wire.{
  WireFormats, marshal_intent, marshal_result, parse_nullable, parse_time, scan_snipe_row,
  format_time, insert_columns, unmarshal_intent, unmarshal_result, intent_json, SnipeText,
  parse_date, WireError, nullable_column, read_slot_prefs, slot_pref_jsons, slot_pref_json,
  parse_wall_time, or_fail, unencodable,
}
use resy_snipe.Store.Snipes.RoundTrip.{
  read_row-row_of, decode_release-encode_release, parse_status-name, force_status-submitted,
}
use resy_snipe.Store.Snipes.{row_of, read_row}
use resy_snipe.Prelude.Results.{ok, bind_ok, ok_inj, err≢ok}

-- A wall time whose text is read as itself.
abbrev pub SpellsClock : WireFormats → SlotPreference → Type 0
SpellsClock fm p = fm.parse_hms (fm.sprint_clock p.time) ≡ some p.time

-- An instant whose text, if it has one, is not empty and is read as itself.
abbrev pub SpellsTime : WireFormats → Time → Type 0
SpellsTime fm t =
    (is_zero t ≡ false)
    → (str_eq (fm.format_rfc3339 t) "" ≡ false) × (fm.parse_rfc3339 (fm.format_rfc3339 t) ≡ some t)

-- The dates and times of a snipe are read as themselves, and so is the JSON that the encoder makes.
pub record IsSpelled (fm : WireFormats) (s : SnipeState) : Type 0 where
  pub date : fm.parse_ymd (fm.sprint_date s.intent.date) ≡ some s.intent.date
  pub clocks : All (SpellsClock fm) s.intent.slot_prefs
  pub created : SpellsTime fm s.created_at
  pub updated : SpellsTime fm s.updated_at
  pub scheduled : SpellsTime fm s.scheduled_at
  pub intent :
      (text : String)
      → fm.intent_text (intent_json fm s.intent) ≡ some text
      → fm.read_intent text ≡ some (intent_json fm s.intent)
  pub result :
      (r : Receipt) (text : String)
      → s.result ≡ some r
      → fm.result_text r ≡ some text
      → (str_eq text "" ≡ false) × (fm.read_result text ≡ some r)

read_slot_prefs-jsons :
    (fm : WireFormats) (ps : List SlotPreference)
    → All (SpellsClock fm) ps
    → read_slot_prefs fm (slot_pref_jsons fm ps) ≡ ok ps
unfolding read_slot_prefs slot_pref_jsons slot_pref_json parse_wall_time
read_slot_prefs-jsons fm [] h = refl
read_slot_prefs-jsons fm (p ∷ ps) h = rw (h.0, read_slot_prefs-jsons fm ps h.1)

-- The text of an instant that is zero or not.
parse_time-text :
    (fm : WireFormats) (t : Time) (no_text : Bool)
    → is_zero t ≡ no_text
    → ((no_text ≡ false)
        → (str_eq (fm.format_rfc3339 t) "" ≡ false)
          × (fm.parse_rfc3339 (fm.format_rfc3339 t) ≡ some t))
    → parse_time fm (if no_text then "" else fm.format_rfc3339 t) ≡ ok t
unfolding parse_time
parse_time-text fm t true e h = ap ok (ground (arith, e))
parse_time-text fm t false e h = rw ((h refl).0, (h refl).1)

parse_time-format_time :
    (fm : WireFormats) (t : Time) → SpellsTime fm t → parse_time fm (format_time fm t) ≡ ok t
unfolding format_time
parse_time-format_time fm t h = parse_time-text fm t (is_zero t) refl h

parse_nullable-column :
    (fm : WireFormats) (t : Time) (text : String) (no_text : Bool)
    → is_zero t ≡ no_text
    → parse_time fm text ≡ ok t
    → parse_nullable fm (if no_text then none else some text) ≡ ok t
unfolding parse_nullable
parse_nullable-column fm t text true e h = ap ok (ground (arith, e))
parse_nullable-column fm t text false e h = h

parse_nullable-nullable_column :
    (fm : WireFormats) (t : Time)
    → SpellsTime fm t
    → parse_nullable fm (nullable_column fm t) ≡ ok t
unfolding nullable_column
parse_nullable-nullable_column fm t h =
    parse_nullable-column fm t (format_time fm t) (is_zero t) refl (parse_time-format_time fm t h)

some_text :
    (e : WireError) (o : Option String) {text : String} → or_fail e o ≡ ok text → o ≡ some text
some_text e none m = absurd (err≢ok m)
some_text e (some t) m = ap some (ok_inj m)

unmarshal_intent-marshal_intent :
    (fm : WireFormats) (s : SnipeState) (text : String)
    → IsSpelled fm s
    → marshal_intent fm s.intent ≡ ok text
    → unmarshal_intent fm text ≡ ok s.intent
unfolding marshal_intent unmarshal_intent intent_json parse_date
unmarshal_intent-marshal_intent fm s text h m = rw (
  h.intent text (some_text unencodable (fm.intent_text (intent_json fm s.intent)) m),
  h.date,
  read_slot_prefs-jsons fm s.intent.slot_prefs h.clocks,
  decode_release-encode_release s.intent.release,
)

-- `spelled` is the field `result` of the snipe's spelling.
unmarshal_result-marshal_result :
    (fm : WireFormats) (kept : Option Receipt) (o : Option String)
    → ((r : Receipt) (text : String)
        → kept ≡ some r
        → fm.result_text r ≡ some text
        → (str_eq text "" ≡ false) × (fm.read_result text ≡ some r))
    → marshal_result fm kept ≡ ok o
    → unmarshal_result fm o ≡ ok kept
unfolding marshal_result unmarshal_result
unmarshal_result-marshal_result fm none o spelled m =
    subst (λ o. unmarshal_result fm o ≡ ok none) (ok_inj m) refl
unmarshal_result-marshal_result fm (some r) o spelled m =
    let (text, encoded, columns) = bind_ok (or_fail unencodable (fm.result_text r)) _ m in
    let (filled, back) = spelled r text refl (some_text unencodable (fm.result_text r) encoded) in
    subst (λ o. unmarshal_result fm o ≡ ok (some r))
      (ap (λ b. if b then none else some text) (sym filled) ∙ ok_inj columns) (rw (filled, back))

-- A snipe of any status that CreateSnipe could encode, with a date, wall times and instants whose
-- texts are read as themselves by an encoding of JSON that reads what it wrote, is read back from
-- the columns as it was, but for its events, which stand in a table of their own: the walk of the
-- transition table never refuses a stored status. The store of values, which keeps what the texts
-- spell, answers the same.
pub scan_snipe_row-insert_columns :
    (fm : WireFormats) (s : SnipeState) (r : SnipeText)
    → IsSpelled fm s
    → insert_columns fm s ≡ ok r
    → (scan_snipe_row fm r ≡ ok (record s { events = [] }))
      × (read_row (row_of s) ≡ ok (record s { events = [] }))
unfolding scan_snipe_row insert_columns new_snipe_state
scan_snipe_row-insert_columns fm s r h m =
    let (text, encoded, m') = bind_ok (marshal_intent fm s.intent) _ m in
    let (o, stored, columns) = bind_ok (marshal_result fm s.result) _ m' in
    (
      subst (λ r. scan_snipe_row fm r ≡ ok (record s { events = [] })) (ok_inj columns)
          (rw (
            unmarshal_intent-marshal_intent fm s text h encoded,
            parse_status-name s.status,
            parse_time-format_time fm s.created_at h.created,
            parse_time-format_time fm s.updated_at h.updated,
            parse_nullable-nullable_column fm s.scheduled_at h.scheduled,
            unmarshal_result-marshal_result fm s.result o h.result stored,
            force_status-submitted (record s { events = [] }) s.status,
          )),
      read_row-row_of s,
    )
