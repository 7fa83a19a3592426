-- ===== src/Domain/Plan/Injective.antt =====
-- What the canonical JSON of internal/domain/plan.go tells apart.
use resy_snipe.Prelude.Sorts.{sort_with}
use resy_snipe.Domain.Dates.{Time}
use resy_snipe.Prelude.{String, ◌≡◌, List, sym, ◌∙◌, map, ◌∷◌, []}
use resy_snipe.Domain.Plan.{
  Formats, Plan, canonical_bytes, canonical_payload, write_canonical, canonical_times,
  comma_separated, canonical_goal, entry_text, json_bool, version_or_v1, canonical_strategy,
  canonical_venue,
}
use Prim.Native.String.{◌++◌}
use text.Mathlib.TextLemmas.{append_assoc, append_cancel_left}

-- A time stamp can be read back wherever its text stands.
abbrev pub IsReadable : Formats → Type 0
IsReadable fmt =
    (t u : Time) (s r : String)
    → fmt.json_string (fmt.utc_nanos t) ++ s ≡ fmt.json_string (fmt.utc_nanos u) ++ r
    → t ≡ u

regroup :
    (a d v z e : String)
    → "{"
        ++ (((a ++ (":" ++ ("{" ++ (((d ++ (":" ++ v)) ++ ("," ++ z)) ++ "}")))) ++ ("," ++ e))
            ++ "}")
      ≡ ("{" ++ (a ++ (":" ++ ("{" ++ (d ++ ":")))))
        ++ (v ++ ("," ++ (z ++ ("}" ++ ("," ++ (e ++ "}"))))))
regroup a d v z e = simp append_assoc

module _ (fmt : Formats) {N : Type 0} where
  -- The entries of the payload that follow the drop moment.
  later_entries : Plan N → List (String × String)
  later_entries p =
      ("fire_schedule", write_canonical fmt (canonical_times fmt p.fire_schedule))
      ∷ ("goal", write_canonical fmt (canonical_goal fmt p.goal))
      ∷ ("signing_required", write_canonical fmt (json_bool p.signing_required))
      ∷ ("strategy", write_canonical fmt (canonical_strategy fmt p.strategy))
      ∷ ("venue", write_canonical fmt (canonical_venue fmt p.venue))
      ∷ []

  -- The drop moment is the first value that the canonical JSON spells.
  canonical_bytes-drop_moment :
      (p : Plan N)
      → canonical_bytes fmt p
        ≡ ("{"
            ++ (fmt.json_string "payload"
                ++ (":" ++ ("{" ++ (fmt.json_string "drop_moment" ++ ":")))))
          ++ (fmt.json_string (fmt.utc_nanos p.drop_moment)
              ++ (","
                  ++ (comma_separated (map (entry_text fmt) (later_entries p))
                      ++ ("}"
                          ++ (","
                              ++ (entry_text fmt (
                                "plan_hash_version",
                                fmt.decimal (version_or_v1 p.plan_hash_version),
                              )
                                  ++ "}"))))))
  unfolding canonical_bytes canonical_payload write_canonical comma_separated later_entries
      sort_with
  canonical_bytes-drop_moment p =
      regroup (fmt.json_string "payload") (fmt.json_string "drop_moment")
        (fmt.json_string (fmt.utc_nanos p.drop_moment))
        (comma_separated (map (entry_text fmt) (later_entries p)))
        (entry_text fmt ("plan_hash_version", fmt.decimal (version_or_v1 p.plan_hash_version)))

  -- Plans with one canonical JSON have one drop moment.
  pub drop_moment_injective :
      IsReadable fmt
      → (p q : Plan N) → canonical_bytes fmt p ≡ canonical_bytes fmt q
      → p.drop_moment ≡ q.drop_moment
  drop_moment_injective readable p q same = readable p.drop_moment q.drop_moment _ _ (
      append_cancel_left
        ("{"
          ++ (fmt.json_string "payload"
              ++ (":" ++ ("{" ++ (fmt.json_string "drop_moment" ++ ":")))))
        _ _ (sym (canonical_bytes-drop_moment p) ∙ same ∙ canonical_bytes-drop_moment q))
