-- ===== src/Resolver/Again.antt =====
-- What internal/resolver/resolver.go answers for a venue that it fetched before.
use resy_snipe.Resolver.Slug.{
  ResolverEnv, resolve_slug, CacheTables, VenueProvider, no_such_venue, resolve_trimmed, is_stale,
  on_cached, on_fetched,
}
use resy_snipe.Store.Tokens.{to_seconds}
use resy_snipe.Service.Errors.{ResolverError}
use resy_snipe.Providers.{ProviderError, venue_not_found}
use resy_snipe.Prelude.Results.{Result, ok, err, guard_ok, ok_inj}
use resy_snipe.Domain.Intent.{Venue}
use resy_snipe.Domain.Dates.{Location, Time, second}
use resy_snipe.Prelude.Texts.{Text, text_eq_refl, is_empty, trim_space}
use resy_snipe.Prelude.{
  Option, ◌≡◌, List, some, arith, str_eq, false, none, ◌∷◌, [], refl, ◌*◌, ◌||◌, if◌then◌else◌,
  subst, Bool-cases, inl, inr, ltb, ◌-◌,
}
use resy_snipe.Store.Cache.{
  VenueCodec, decode_venue, find_venue, encode_venue, upsert_venue, VenueCacheRow, VenueCacheEntry,
  get_venue_cache, upsert_venue_cache, zone_text, CacheError, cache_key_required, read_zone,
}

-- Unmarshalling gives back the JSON shape of the venue.
abbrev pub IsFaithful : VenueCodec → Venue → Type 0
IsFaithful codec v = codec.of_json (codec.to_json (encode_venue v)) ≡ some (encode_venue v)

-- The zone of a venue, where it has one, is found again by its name.
abbrev pub IsLoadable : VenueCodec → Option Location → Type 0
IsLoadable codec none = Unit
IsLoadable codec (some l) = (str_eq l.tz_name "" ≡ false) × (codec.load_location l.tz_name ≡ some l)

-- A stale venue with what the provider says now: its answer, and the old venue while it fails,
-- unless it knows no such venue.
unfoldable pub served_stale :
    ResolverEnv → Text → Text → Venue → Result ProviderError Venue → Result ResolverError Venue
served_stale env slug city old (ok new) = ok new
served_stale env slug city old (err venue_not_found) = err (no_such_venue env slug city)
served_stale env slug city old (err e) = ok old

find_venue-upsert_venue :
    (new : VenueCacheRow) (rows : List VenueCacheRow)
    → find_venue new.slug new.city (upsert_venue new rows) ≡ ok new
unfolding find_venue upsert_venue
find_venue-upsert_venue new [] = ground (arith, text_eq_refl new.slug, text_eq_refl new.city)
find_venue-upsert_venue new (r ∷ rs) =
    ground (arith, text_eq_refl new.slug, text_eq_refl new.city, find_venue-upsert_venue new rs)

read_zone-zone_text :
    (codec : VenueCodec) (tz : Option Location)
    → IsLoadable codec tz
    → read_zone codec (zone_text tz) ≡ ok tz
read_zone-zone_text codec none loads = refl
read_zone-zone_text codec (some l) loads = rw (loads.0, loads.1) refl

decode_venue-encode_venue :
    (codec : VenueCodec) (v : Venue)
    → IsLoadable codec v.tz
    → decode_venue codec (encode_venue v) ≡ ok v
unfolding decode_venue encode_venue
decode_venue-encode_venue codec v loads = rw (read_zone-zone_text codec v.tz loads) refl

on_fetched-stale :
    (env : ResolverEnv) (slug city : Text) (now : Time) (t : CacheTables) (c : VenueCacheEntry)
    (r : Result ProviderError Venue)
    → (on_fetched env slug city now t (ok c) r).0 ≡ served_stale env slug city c.venue r
unfolding served_stale
on_fetched-stale env slug city now t c (ok v) = refl
on_fetched-stale env slug city now t c (err e) = refl

abbrev entry_of : Text → Text → Venue → Time → VenueCacheEntry
entry_of slug city v at = record { slug = slug; city = city; venue = v; cached_at = at }

-- What a fetch leaves in the cache, with its time in whole seconds.
get_venue_cache-upsert_venue_cache :
    (codec : VenueCodec) (slug city : Text) (v : Venue) (now : Time)
    (rows rows' : List VenueCacheRow)
    → IsFaithful codec v
    → IsLoadable codec v.tz
    → upsert_venue_cache codec (entry_of slug city v now) rows ≡ ok rows'
    → get_venue_cache codec slug city rows' ≡ ok (entry_of slug city v (to_seconds now * second))
unfolding get_venue_cache upsert_venue_cache
get_venue_cache-upsert_venue_cache codec slug city v now rows rows' faithful loads h =
    let written = guard_ok (is_empty slug || is_empty city) cache_key_required _ h in
    let row : VenueCacheRow = record {
      slug = slug;
      city = city;
      venue_json = codec.to_json (encode_venue v);
      resolved_s = to_seconds now;
    } in
    subst
      (λ x. get_venue_cache codec slug city x ≡ ok (entry_of slug city v (to_seconds now * second)))
      (ok_inj written.1)
      (rw (find_venue-upsert_venue row rows, faithful, decode_venue-encode_venue codec v loads)
        refl)

-- The answer where a venue is cached.
on_cached-known :
    (env : ResolverEnv) (p : VenueProvider) (slug city : Text) (now : Time) (t : CacheTables)
    (c : VenueCacheEntry)
    → (on_cached env p slug city now t (ok c)).0 ≡ (
        if is_stale env now c.cached_at
        then served_stale env slug city c.venue (p.resolve_venue slug city)
        else ok c.venue)
on_cached-known env p slug city now t c = elim (Bool-cases (is_stale env now c.cached_at)) [
  | inl stale ↦ rw stale (on_fetched-stale env slug city now t c (p.resolve_venue slug city))
  | inr fresh ↦ rw fresh refl
]

-- A fetch puts the venue into the cache.
get_venue_cache-fetched :
    (env : ResolverEnv) (slug city : Text) (v : Venue) (now : Time) (t : CacheTables)
    (miss : CacheError)
    → IsFaithful env.codec v
    → IsLoadable env.codec v.tz
    → (is_empty slug || is_empty city) ≡ false
    → get_venue_cache env.codec slug city
        (on_fetched env slug city now t (err miss) (ok v)).1.venues
      ≡ ok (entry_of slug city v (to_seconds now * second))
unfolding upsert_venue_cache
get_venue_cache-fetched env slug city v now t miss faithful loads given = rw given (
    get_venue_cache-upsert_venue_cache env.codec slug city v now t.venues _ faithful loads
      (rw given refl))

-- Where the cache's codec gives the venue back: after a call for a slug and a city fetched a venue,
-- since none was cached, a later call of them answers with that venue, whatever the provider would
-- say, as long as no more than the lifetime has passed since the whole second of the fetch;
-- afterwards it answers with what the provider says, with the old venue where the provider fails,
-- and with an error where it says that there is no such venue.
pub resolve_slug-again :
    (env : ResolverEnv) (p p' : VenueProvider) (slug city : Text) (now later : Time)
    (t : CacheTables) (v : Venue) (miss : CacheError)
    → IsFaithful env.codec v
    → IsLoadable env.codec v.tz
    → (is_empty (trim_space slug) || is_empty (trim_space city)) ≡ false
    → get_venue_cache env.codec (trim_space slug) (trim_space city) t.venues ≡ err miss
    → p.resolve_venue (trim_space slug) (trim_space city) ≡ ok v
    → (resolve_slug env p' slug city later (resolve_slug env p slug city now t).1).0 ≡ (
        if ltb env.ttl (later - to_seconds now * second)
        then served_stale env
            (trim_space slug)
            (trim_space city)
            v
            (p'.resolve_venue (trim_space slug) (trim_space city))
        else ok v)
unfolding resolve_slug resolve_trimmed is_stale
resolve_slug-again env p p' slug city now later t v miss faithful loads given missed fetched =
    let k = trim_space slug in
    let c = trim_space city in
    rw (given, missed, fetched)
      (rw (get_venue_cache-fetched env k c v now t miss faithful loads given)
        (on_cached-known env p' k c later _ (entry_of k c v (to_seconds now * second))))
