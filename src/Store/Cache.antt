-- ===== src/Store/Cache.antt =====
-- internal/store/cache.go: the venues and the searches that the resolver keeps, for all users. Times
-- are written in whole seconds, rounded down. Texts are lists of bytes.
use resy_snipe.Domain.Dates.{Location, Time, second}
use resy_snipe.Prelude.Results.{Result, err, ok, ◌>>=◌}
use resy_snipe.Domain.Intent.{Venue}
use resy_snipe.Prelude.Texts.{Text, is_empty, text_eq}
use resy_snipe.Prelude.{
  List, Option, String, Bool, if◌then◌else◌, ℕ, ◌∷◌, [], some, str_eq, ◌*◌, map, none, ◌&&◌, ◌||◌,
}
use resy_snipe.Store.Tokens.{to_seconds}

-- venueJSON.
pub record VenueJson : Type 0 where
  pub provider : String
  pub ref : String
  pub name : String
  pub tz : String

-- json.Marshal and json.Unmarshal of one venue and of a list of them, and time.LoadLocation.
pub record VenueCodec : Type 0 where
  pub to_json : VenueJson → String
  pub of_json : String → Option VenueJson
  pub list_to_json : List VenueJson → String
  pub list_of_json : String → Option (List VenueJson)
  pub load_location : String → Option Location

-- VenueCacheEntry.
pub record VenueCacheEntry : Type 0 where
  pub slug : Text
  pub city : Text
  pub venue : Venue
  pub cached_at : Time

-- NameSearchCacheEntry.
pub record NameSearchCacheEntry : Type 0 where
  pub query : Text
  pub hits : List Venue
  pub cached_at : Time

-- A row of the table venues_cache.
pub record VenueCacheRow : Type 0 where
  pub slug : Text
  pub city : Text
  pub venue_json : String
  pub resolved_s : ℕ

-- A row of the table name_search_cache.
pub record NameCacheRow : Type 0 where
  pub query : Text
  pub results_json : String
  pub resolved_s : ℕ

pub data CacheError : Type 0 where
  cache_key_required cache_miss undecodable : CacheError

abbrev pub zone_text : Option Location → String
zone_text none = ""
zone_text (some l) = l.tz_name

-- encodeVenue.
unfoldable pub encode_venue : Venue → VenueJson
encode_venue v = record { provider = v.provider; ref = v.ref; name = v.name; tz = zone_text v.tz }

abbrev pub read_zone : VenueCodec → String → Result CacheError (Option Location)
read_zone codec tz =
    if str_eq tz ""
    then ok none
    else elim (codec.load_location tz) [ none ↦ err undecodable | some l ↦ ok (some l) ]

-- venueJSON.decode.
unfoldable pub decode_venue : VenueCodec → VenueJson → Result CacheError Venue
decode_venue codec j = do
  tz ← read_zone codec j.tz
  ok (record { provider = j.provider; ref = j.ref; name = j.name; tz = tz })

unfoldable pub decode_venues : VenueCodec → List VenueJson → Result CacheError (List Venue)
unfolding decode_venue
decode_venues codec [] = ok []
decode_venues codec (j ∷ js) = do v ← decode_venue codec j; vs ← decode_venues codec js; ok (v ∷ vs)

abbrev pub or_undecodable : {A : Type 0} → Option A → Result CacheError A
or_undecodable none = err undecodable
or_undecodable (some a) = ok a

abbrev pub is_venue_key : Text → Text → VenueCacheRow → Bool
is_venue_key slug city r = text_eq r.slug slug && text_eq r.city city

-- INSERT ... ON CONFLICT(slug, city) DO UPDATE.
unfoldable pub upsert_venue : VenueCacheRow → List VenueCacheRow → List VenueCacheRow
upsert_venue new [] = new ∷ []
upsert_venue new (r ∷ rs) =
    let rest = upsert_venue new rs in
    if is_venue_key new.slug new.city r then new ∷ rs else r ∷ rest

unfoldable pub find_venue : Text → Text → List VenueCacheRow → Result CacheError VenueCacheRow
find_venue slug city [] = err cache_miss
find_venue slug city (r ∷ rs) =
    let rest = find_venue slug city rs in if is_venue_key slug city r then ok r else rest

-- UpsertVenueCache.
unfoldable pub upsert_venue_cache :
    VenueCodec → VenueCacheEntry → List VenueCacheRow → Result CacheError (List VenueCacheRow)
unfolding encode_venue upsert_venue
upsert_venue_cache codec entry rows =
    if is_empty entry.slug || is_empty entry.city
    then err cache_key_required
    else ok (
        upsert_venue
          (record {
            slug = entry.slug;
            city = entry.city;
            venue_json = codec.to_json (encode_venue entry.venue);
            resolved_s = to_seconds entry.cached_at;
          })
          rows)

-- GetVenueCache.
unfoldable pub get_venue_cache :
    VenueCodec → Text → Text → List VenueCacheRow → Result CacheError VenueCacheEntry
unfolding find_venue decode_venue
get_venue_cache codec slug city rows = do
  r ← find_venue slug city rows
  j ← or_undecodable (codec.of_json r.venue_json)
  v ← decode_venue codec j
  ok (record { slug = slug; city = city; venue = v; cached_at = r.resolved_s * second })

-- INSERT ... ON CONFLICT(query) DO UPDATE.
unfoldable pub upsert_names : NameCacheRow → List NameCacheRow → List NameCacheRow
upsert_names new [] = new ∷ []
upsert_names new (r ∷ rs) =
    let rest = upsert_names new rs in if text_eq r.query new.query then new ∷ rs else r ∷ rest

unfoldable pub find_names : Text → List NameCacheRow → Result CacheError NameCacheRow
find_names query [] = err cache_miss
find_names query (r ∷ rs) =
    let rest = find_names query rs in if text_eq r.query query then ok r else rest

-- UpsertNameSearchCache.
unfoldable pub upsert_name_search_cache :
    VenueCodec
    → Text
    → List Venue
    → Time
    → List NameCacheRow
    → Result CacheError (List NameCacheRow)
unfolding encode_venue upsert_names
upsert_name_search_cache codec query hits at rows =
    if is_empty query
    then err cache_key_required
    else ok (
        upsert_names
          (record {
            query = query;
            results_json = codec.list_to_json (map encode_venue hits);
            resolved_s = to_seconds at;
          })
          rows)

-- GetNameSearchCache.
unfoldable pub get_name_search_cache :
    VenueCodec → Text → List NameCacheRow → Result CacheError NameSearchCacheEntry
unfolding find_names decode_venues
get_name_search_cache codec query rows = do
  r ← find_names query rows
  js ← or_undecodable (codec.list_of_json r.results_json)
  vs ← decode_venues codec js
  ok (record { query = query; hits = vs; cached_at = r.resolved_s * second })
