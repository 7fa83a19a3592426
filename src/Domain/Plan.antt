-- ===== src/Domain/Plan.antt =====
-- internal/domain/plan.go: the plan that a user approves, its canonical JSON and its hash. What the
-- source takes from encoding/json, fmt, time and crypto/sha256 is the argument `Formats`.
use resy_snipe.Prelude.Sorts.{sort_with}
use resy_snipe.Prelude.Texts.{Text}
use resy_snipe.Domain.Intent.{
  Venue, ReleaseStrategy, explicit_release, discovered_release, continuous_release,
}
use resy_snipe.Domain.Goal.{
  Constraints, Goal, VenueQuery, priority_text, non_positive, url_query, slug_query, name_query,
}
use resy_snipe.Domain.Dates.{ℤ, Location, Time, pos, Date, WallTime}
use resy_snipe.Prelude.{
  Bool, List, Option, String, false, if◌then◌else◌, ◌∷◌, [], map, some, true, none,
}
use Prim.Native.String.{◌++◌, compare}
use Prim.Native.Nat.{Ordering}
pub mod Injective

-- `json_string` and `json_bytes` are json.Marshal of a string, `decimal` that of an int; `utc_nanos`,
-- `date_text` and `wall_text` the texts of instants, dates and times of day; `sha256_hex` the digest.
pub record Formats : Type 0 where
  pub json_string : String → String
  pub json_bytes : Text → String
  pub decimal : ℤ → String
  pub utc_nanos : Time → String
  pub date_text : Date → String
  pub wall_text : WallTime → String
  pub sha256_hex : String → String

-- The notes of the planner are of any type, since the hash leaves them out.
pub record Plan (N : Type 0) : Type 0 where
  pub goal : Goal
  pub venue : Venue
  pub drop_moment : Time
  pub strategy : Option ReleaseStrategy
  pub fire_schedule : List Time
  pub signing_required : Bool
  pub hash : String
  pub notes : List N
  pub plan_hash_version : ℤ
  pub computed_at : Time

-- PlanHashVersionV1.
abbrev pub plan_hash_version_v1 : ℤ
plan_hash_version_v1 = pos 1

-- The method planHashVersion.
abbrev pub version_or_v1 : ℤ → ℤ
version_or_v1 v = if non_positive v then plan_hash_version_v1 else v

-- The values that writeCanonical switches on; a map is the list of its entries, in any order.
mutual
  pub data Json : Type 0 where
    json_object : Fields → Json
    json_list : Items → Json
    json_texts : List String → Json
    json_text : String → Json
    json_raw : Text → Json
    json_int : ℤ → Json
    json_bool : Bool → Json

  pub data Fields : Type 0 where
    no_fields : Fields
    field : String → Json → Fields → Fields

  pub data Items : Type 0 where
    no_items : Items
    item : Json → Items → Items

abbrev pub not_after : String → String → Bool
not_after a b = elim (compare a b) [ Ordering.gt ↦ false | _ ↦ true ]

-- sort.Strings.
unfoldable pub sort_strings : List String → List String
sort_strings xs = sort_with not_after xs

abbrev pub key_not_after : String × String → String × String → Bool
key_not_after a b = not_after a.0 b.0

-- The items with commas between them.
unfoldable pub comma_separated : List String → String
comma_separated [] = ""
comma_separated (x ∷ []) = x
comma_separated (x ∷ y ∷ ys) = x ++ "," ++ comma_separated (y ∷ ys)

module _ (fmt : Formats) where
  abbrev pub entry_text : String × String → String
  entry_text e = fmt.json_string e.0 ++ ":" ++ e.1

  abbrev pub bool_text : Bool → String
  bool_text true = "true"
  bool_text false = "false"

  unfoldable mutual
    -- writeCanonical: the entries of a map are written in the order of their keys.
    pub write_canonical : Json → String
    write_canonical (json_object fs) =
        "{" ++ comma_separated (map entry_text (sort_with key_not_after (entries fs))) ++ "}"
    write_canonical (json_list xs) = "[" ++ comma_separated (item_texts xs) ++ "]"
    write_canonical (json_texts xs) = "[" ++ comma_separated (map fmt.json_string xs) ++ "]"
    write_canonical (json_text s) = fmt.json_string s
    write_canonical (json_raw s) = fmt.json_bytes s
    write_canonical (json_int n) = fmt.decimal n
    write_canonical (json_bool b) = bool_text b

    pub entries : Fields → List (String × String)
    entries no_fields = []
    entries (field k v fs) = (k, write_canonical v) ∷ entries fs

    pub item_texts : Items → List String
    item_texts no_items = []
    item_texts (item v xs) = write_canonical v ∷ item_texts xs

  unfoldable pub canonical_venue_query : Option VenueQuery → Json
  canonical_venue_query none = json_object (field "kind" (json_text "nil") no_fields)
  canonical_venue_query (some (url_query u)) =
      json_object (field "kind" (json_text "url") (field "url" (json_raw u) no_fields))
  canonical_venue_query (some (slug_query s c)) = json_object (
      field "kind" (json_text "slug")
        (field "slug" (json_raw s) (field "city" (json_raw c) no_fields)))
  canonical_venue_query (some (name_query n)) =
      json_object (field "kind" (json_text "name") (field "name" (json_raw n) no_fields))

  unfoldable pub canonical_constraints : Constraints → Json
  canonical_constraints c = json_object (
      field "table_types" (json_texts (sort_strings c.table_types))
        (field "any_table" (json_bool c.any_table) no_fields))

  unfoldable pub canonical_goal : Goal → Json
  unfolding canonical_venue_query canonical_constraints
  canonical_goal g =
      let window = json_object (
        field "start" (json_text (fmt.wall_text g.time_prefs.start)) (
          field "end" (json_text (fmt.wall_text g.time_prefs.end))
            (field "priority" (json_text (priority_text g.time_prefs.priority)) no_fields))) in
      json_object (
        field "venue_query" (canonical_venue_query g.venue_query) (
          field "date" (json_text (fmt.date_text g.date)) (
            field "party" (json_int g.party) (
              field "time_prefs" window (
                field "account_id" (json_text g.account_id)
                  (field "constraints" (canonical_constraints g.constraints) no_fields))))))

  abbrev pub zone_name : Option Location → String
  zone_name none = ""
  zone_name (some tz) = tz.tz_name

  unfoldable pub canonical_venue : Venue → Json
  canonical_venue v = json_object (
      field "provider" (json_text v.provider)
        (field "ref" (json_text v.ref) (field "tz" (json_text (zone_name v.tz)) no_fields)))

  unfoldable pub canonical_strategy : Option ReleaseStrategy → Json
  canonical_strategy none = json_object (field "tag" (json_text "nil") no_fields)
  canonical_strategy (some (explicit_release at)) =
      json_object
        (field "tag" (json_text "explicit") (field "at" (json_text (fmt.utc_nanos at)) no_fields))
  canonical_strategy (some (discovered_release from until)) = json_object (
      field "tag" (json_text "discovered") (
        field "probe_from" (json_text (fmt.utc_nanos from))
          (field "probe_until" (json_text (fmt.utc_nanos until)) no_fields)))
  canonical_strategy (some (continuous_release until)) = json_object (
      field "tag" (json_text "continuous")
        (field "until" (json_text (fmt.utc_nanos until)) no_fields))

  -- canonicalTimes.
  abbrev pub canonical_times : List Time → Json
  canonical_times ts = json_texts (map fmt.utc_nanos ts)

  unfoldable pub canonical_payload : {N : Type 0} → Plan N → Json
  canonical_payload p = json_object (
      field "goal" (canonical_goal p.goal) (
        field "venue" (canonical_venue p.venue) (
          field "drop_moment" (json_text (fmt.utc_nanos p.drop_moment)) (
            field "strategy" (canonical_strategy p.strategy) (
              field "fire_schedule" (canonical_times p.fire_schedule)
                (field "signing_required" (json_bool p.signing_required) no_fields))))))

  -- The method CanonicalBytes.
  unfoldable pub canonical_bytes : {N : Type 0} → Plan N → String
  unfolding canonical_payload write_canonical
  canonical_bytes p = write_canonical (
      json_object (
        field "plan_hash_version" (json_int (version_or_v1 p.plan_hash_version))
          (field "payload" (canonical_payload p) no_fields)))

  -- The method ComputeHash.
  unfoldable pub compute_hash : {N : Type 0} → Plan N → String
  compute_hash p = "sha256:" ++ fmt.sha256_hex (canonical_bytes p)

  -- The method WithHash.
  unfoldable pub with_hash : {N : Type 0} → Plan N → Plan N
  unfolding compute_hash
  with_hash p = record p { hash = compute_hash p }
