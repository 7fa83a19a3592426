-- ===== src/Resolver/Slug.antt =====
-- internal/resolver/resolver.go: what a resolver has, and resolveSlug.
use resy_snipe.Resolver.Url.{UrlEnv, resolver_text, refusing}
use resy_snipe.Service.Errors.{
  ResolverError, resolver_other, resolver_venue_not_found, resolver_invalid_url,
}
use resy_snipe.Domain.Intent.{Venue}
use resy_snipe.Prelude.{List, Bool, ◌*◌, if◌then◌else◌, ltb, String, false, ◌-◌, not, ℕ, ◌||◌}
use resy_snipe.Domain.Dates.{Time, minute}
use resy_snipe.Store.Cache.{
  get_venue_cache, CacheError, VenueCacheRow, VenueCodec, NameCacheRow, VenueCacheEntry,
  upsert_venue_cache,
}
use resy_snipe.Prelude.Texts.{Text, trim_space, is_empty, joined}
use resy_snipe.Prelude.Results.{Result, err, ok}
use resy_snipe.Providers.{ProviderError, venue_not_found}

-- What a resolver is built with: its lifetime of a cached answer, the codec of the cache, the package
-- net/url, and the texts of the provider's errors.
pub record ResolverEnv : Type 0 where
  pub ttl : Time
  pub codec : VenueCodec
  pub url : UrlEnv
  pub provider_error_text : ProviderError → String
  pub decimal : ℕ → String

-- The provider's two calls, as they answer at the moment of a call.
pub record VenueProvider : Type 0 where
  pub resolve_venue : Text → Text → Result ProviderError Venue
  pub search_venues_by_name : Text → Result ProviderError (List Venue)

-- The tables of the cache.
pub record CacheTables : Type 0 where
  pub venues : List VenueCacheRow
  pub names : List NameCacheRow

-- DefaultTTL.
abbrev pub default_ttl : Time
default_ttl = 24 * 60 * minute

-- isStale.
unfoldable pub is_stale : ResolverEnv → Time → Time → Bool
is_stale env now cached_at = ltb env.ttl (now - cached_at)

-- A write that fails is logged only.
abbrev pub keep_venues : CacheTables → Result CacheError (List VenueCacheRow) → CacheTables
keep_venues t (err e) = t
keep_venues t (ok rows) = record t { venues = rows }

abbrev pub upstream : ResolverEnv → ProviderError → ResolverError
upstream env e = record { kind = resolver_other; text = env.provider_error_text e }

abbrev pub no_such_venue : ResolverEnv → Text → Text → ResolverError
no_such_venue env slug city = record {
  kind = resolver_venue_not_found;
  text = joined "slug=" (
      joined (env.url.text_of slug) (
        joined " city="
          (joined (env.url.text_of city) (joined ": " (resolver_text resolver_venue_not_found)))));
}

-- A failed fetch: the cached venue where there is one, unless the provider knows no such venue.
abbrev pub on_fetch_error :
    ResolverEnv
    → Text
    → Text
    → Result CacheError VenueCacheEntry
    → ProviderError
    → Result ResolverError Venue
on_fetch_error env slug city cached venue_not_found = err (no_such_venue env slug city)
on_fetch_error env slug city (ok c) e = ok c.venue
on_fetch_error env slug city (err m) e = err (upstream env e)

abbrev pub on_fetched :
    ResolverEnv
    → Text
    → Text
    → Time
    → CacheTables
    → Result CacheError VenueCacheEntry
    → Result ProviderError Venue
    → Result ResolverError Venue × CacheTables
on_fetched env slug city now t cached (err e) = (on_fetch_error env slug city cached e, t)
on_fetched env slug city now t cached (ok v) = (
  ok v,
  keep_venues t (
      upsert_venue_cache env.codec (record { slug = slug; city = city; venue = v; cached_at = now })
        t.venues),
)

abbrev pub is_fresh : ResolverEnv → Time → Result CacheError VenueCacheEntry → Bool
is_fresh env now (err m) = false
is_fresh env now (ok c) = not (is_stale env now c.cached_at)

abbrev pub on_cached :
    ResolverEnv
    → VenueProvider
    → Text
    → Text
    → Time
    → CacheTables
    → Result CacheError VenueCacheEntry
    → Result ResolverError Venue × CacheTables
on_cached env provider slug city now t (err m) =
    on_fetched env slug city now t (err m) (provider.resolve_venue slug city)
on_cached env provider slug city now t (ok c) =
    if not (is_stale env now c.cached_at)
    then (ok c.venue, t)
    else on_fetched env slug city now t (ok c) (provider.resolve_venue slug city)

-- resolveSlug after it has trimmed its arguments.
unfoldable pub resolve_trimmed :
    ResolverEnv
    → VenueProvider
    → Text
    → Text
    → Time
    → CacheTables
    → Result ResolverError Venue × CacheTables
unfolding get_venue_cache
resolve_trimmed env provider slug city now t =
    if is_empty slug || is_empty city
    then (err (refusing resolver_invalid_url ": slug and city are required"), t)
    else on_cached env provider slug city now t (get_venue_cache env.codec slug city t.venues)

-- resolveSlug.
unfoldable pub resolve_slug :
    ResolverEnv
    → VenueProvider
    → Text
    → Text
    → Time
    → CacheTables
    → Result ResolverError Venue × CacheTables
unfolding resolve_trimmed
resolve_slug env provider slug city now t =
    resolve_trimmed env provider (trim_space slug) (trim_space city) now t
