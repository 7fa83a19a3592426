-- ===== src/Store/Quests/GoalCodec.antt =====
-- MarshalGoal and UnmarshalGoal of internal/store/quests.go, which internal/service/goal_codec.go
-- writes out again. The texts of dates and times of day are kept as the values that they spell; a
-- field that `omitempty` leaves out is read as the empty value.
use resy_snipe.Prelude.Texts.{Text}
use resy_snipe.Domain.Dates.{Date, WallTime, ℤ}
use resy_snipe.Domain.Goal.{
  Goal, TimePriority, VenueQuery, earlier, later, priority_none, url_query, slug_query, name_query,
  priority_text,
}
use resy_snipe.Prelude.Results.{Result, ◌>>=◌, err, ok}
use resy_snipe.Prelude.{List, Option, String, Bool, if◌then◌else◌, none, [], str_eq, some, ◌||◌}

-- parseTimePriority.
unfoldable pub parse_time_priority : String → TimePriority
parse_time_priority s =
    if str_eq s "earlier" then earlier else if str_eq s "later" then later else priority_none

pub record VenueQueryJson : Type 0 where
  pub kind : String
  pub url : Text
  pub slug : Text
  pub city : Text
  pub name : Text

pub record TimeWindowJson : Type 0 where
  pub start : WallTime
  pub end : WallTime
  pub priority : String

pub record ConstraintsJson : Type 0 where
  pub table_types : List String
  pub any_table : Bool

-- goalJSONShape.
pub record GoalJson : Type 0 where
  pub venue_query : VenueQueryJson
  pub date : Date
  pub party : ℤ
  pub time_prefs : TimeWindowJson
  pub account_id : String
  pub constraints : ConstraintsJson

pub data GoalCodecError : Type 0 where
  unknown_query_kind goal_json_malformed : GoalCodecError

-- encodeVenueQuery.
unfoldable pub encode_venue_query : Option VenueQuery → VenueQueryJson
encode_venue_query none = record { kind = "nil"; url = []; slug = []; city = []; name = [] }
encode_venue_query (some (url_query u)) = record {
  kind = "url";
  url = u;
  slug = [];
  city = [];
  name = [];
}
encode_venue_query (some (slug_query s c)) = record {
  kind = "slug";
  url = [];
  slug = s;
  city = c;
  name = [];
}
encode_venue_query (some (name_query n)) = record {
  kind = "name";
  url = [];
  slug = [];
  city = [];
  name = n;
}

-- decodeVenueQuery.
unfoldable pub decode_venue_query : VenueQueryJson → Result GoalCodecError (Option VenueQuery)
decode_venue_query j =
    if str_eq j.kind "url"
    then ok (some (url_query j.url))
    else if str_eq j.kind "slug"
    then ok (some (slug_query j.slug j.city))
    else if str_eq j.kind "name"
    then ok (some (name_query j.name))
    else if str_eq j.kind "nil" || str_eq j.kind ""
    then ok none
    else err unknown_query_kind

unfoldable pub goal_shape : Goal → GoalJson
unfolding encode_venue_query priority_text
goal_shape g = record {
  venue_query = encode_venue_query g.venue_query;
  date = g.date;
  party = g.party;
  time_prefs = record {
    start = g.time_prefs.start;
    end = g.time_prefs.end;
    priority = priority_text g.time_prefs.priority;
  };
  account_id = g.account_id;
  constraints = record {
    table_types = g.constraints.table_types;
    any_table = g.constraints.any_table;
  };
}

unfoldable pub goal_of_shape : GoalJson → Result GoalCodecError Goal
unfolding decode_venue_query parse_time_priority
goal_of_shape j = do
  query ← decode_venue_query j.venue_query
  ok (record {
    venue_query = query;
    date = j.date;
    party = j.party;
    time_prefs = record {
      start = j.time_prefs.start;
      end = j.time_prefs.end;
      priority = parse_time_priority j.time_prefs.priority;
    };
    account_id = j.account_id;
    constraints = record {
      table_types = j.constraints.table_types;
      any_table = j.constraints.any_table;
    };
  })

-- MarshalGoal and UnmarshalGoal: `to_json` and `of_json` are json.Marshal and json.Unmarshal of the shape.
unfoldable pub marshal_goal : (GoalJson → String) → Goal → String
marshal_goal to_json g = to_json (goal_shape g)

abbrev pub goal_read : Option GoalJson → Result GoalCodecError Goal
goal_read none = err goal_json_malformed
goal_read (some j) = goal_of_shape j

unfoldable pub unmarshal_goal : (String → Option GoalJson) → String → Result GoalCodecError Goal
unmarshal_goal of_json text = goal_read (of_json text)
