-- ===== src/Resolver/Resolve.antt =====
-- internal/resolver/resolver.go: Resolve, resolveURL and resolveName.
use resy_snipe.Domain.Goal.{VenueQuery, url_query, slug_query, name_query}
use resy_snipe.Service.Errors.{
  ResolverError, resolver_venue_not_found, resolver_invalid_url, resolver_venue_ambiguous,
}
use resy_snipe.Domain.Intent.{Venue}
use resy_snipe.Domain.Dates.{Time}
use resy_snipe.Prelude.Results.{Result, err, ok}
use resy_snipe.Providers.{ProviderError}
use resy_snipe.Resolver.Url.{parse_resy_url, refusing, resolver_text}
use resy_snipe.Prelude.{
  none, Bool, List, false, ◌∷◌, Option, true, if◌then◌else◌, [], not, some, length,
}
use resy_snipe.Prelude.Texts.{Text, trim_left, to_lower, trim_space, is_empty, is_space, joined}
use resy_snipe.Store.Cache.{
  get_name_search_cache, CacheError, NameCacheRow, NameSearchCacheEntry, upsert_name_search_cache,
}
use resy_snipe.Resolver.Slug.{
  CacheTables, ResolverEnv, resolve_slug, VenueProvider, upstream, is_stale,
}

abbrev pub keep_names : CacheTables → Result CacheError (List NameCacheRow) → CacheTables
keep_names t (err e) = t
keep_names t (ok rows) = record t { names = rows }

-- resolveURL.
unfoldable pub resolve_url :
    ResolverEnv
    → VenueProvider
    → Text
    → Time
    → CacheTables
    → Result ResolverError Venue × CacheTables
unfolding parse_resy_url resolve_slug
resolve_url env provider raw now t = elim (parse_resy_url env.url raw) [
  | err e ↦ (err e, t)
  | ok (canonical, hints) ↦ resolve_slug env provider hints.slug hints.city now t
]

-- strings.Fields joined with one space; `gap` says that a space is due before the next byte.
unfoldable pub collapse : Bool → Text → Text
collapse gap [] = []
collapse gap (c ∷ cs) =
    let skipped = collapse true cs in
    let kept = collapse false cs in
    if is_space c then skipped else if gap then b' ' ∷ c ∷ kept else c ∷ kept

-- normalizeNameQuery; the leading whitespace is trimmed first, so that no space stands in front.
unfoldable pub normalize_name_query : Text → Text
unfolding collapse
normalize_name_query q = collapse false (trim_left (to_lower q))

-- pickFromHits.
unfoldable pub pick_from_hits : ResolverEnv → Text → List Venue → Result ResolverError Venue
pick_from_hits env query [] = err (record {
  kind = resolver_venue_not_found;
  text =
      joined "name="
        (joined (env.url.quote query) (joined ": " (resolver_text resolver_venue_not_found)));
})
pick_from_hits env query (v ∷ []) = ok v
pick_from_hits env query (v ∷ w ∷ vs) = err (record {
  kind = resolver_venue_ambiguous;
  text = joined "resolver: venue ambiguous: " (
      joined (env.url.text_of query)
        (joined " (" (joined (env.decimal (length (v ∷ w ∷ vs))) " candidates)")));
})

abbrev pub on_search_error :
    ResolverEnv
    → Text
    → Result CacheError NameSearchCacheEntry
    → ProviderError
    → Result ResolverError Venue
on_search_error env name (ok c) e = pick_from_hits env name c.hits
on_search_error env name (err m) e = err (upstream env e)

abbrev pub on_searched :
    ResolverEnv
    → Text
    → Time
    → CacheTables
    → Result CacheError NameSearchCacheEntry
    → Result ProviderError (List Venue)
    → Result ResolverError Venue × CacheTables
on_searched env name now t cached (err e) = (on_search_error env name cached e, t)
on_searched env name now t cached (ok hits) = (
  pick_from_hits env name hits,
  keep_names t (upsert_name_search_cache env.codec (normalize_name_query name) hits now t.names),
)

abbrev pub on_cached_names :
    ResolverEnv
    → VenueProvider
    → Text
    → Time
    → CacheTables
    → Result CacheError NameSearchCacheEntry
    → Result ResolverError Venue × CacheTables
on_cached_names env provider name now t (err m) =
    on_searched env name now t (err m) (provider.search_venues_by_name name)
on_cached_names env provider name now t (ok c) =
    if not (is_stale env now c.cached_at)
    then (pick_from_hits env name c.hits, t)
    else on_searched env name now t (ok c) (provider.search_venues_by_name name)

-- resolveName after it has trimmed the name.
unfoldable pub resolve_trimmed_name :
    ResolverEnv
    → VenueProvider
    → Text
    → Time
    → CacheTables
    → Result ResolverError Venue × CacheTables
unfolding get_name_search_cache
resolve_trimmed_name env provider name now t =
    if is_empty name
    then (err (refusing resolver_invalid_url ": name is required"), t)
    else on_cached_names env provider name now t
        (get_name_search_cache env.codec (normalize_name_query name) t.names)

-- resolveName.
unfoldable pub resolve_name :
    ResolverEnv
    → VenueProvider
    → Text
    → Time
    → CacheTables
    → Result ResolverError Venue × CacheTables
unfolding resolve_trimmed_name
resolve_name env provider name now t = resolve_trimmed_name env provider (trim_space name) now t

-- Resolve.
unfoldable pub resolve :
    ResolverEnv
    → VenueProvider
    → Option VenueQuery
    → Time
    → CacheTables
    → Result ResolverError Venue × CacheTables
unfolding resolve_url resolve_slug resolve_name
resolve env provider none now t = (err (refusing resolver_invalid_url ""), t)
resolve env provider (some (url_query url)) now t = resolve_url env provider url now t
resolve env provider (some (slug_query slug city)) now t = resolve_slug env provider slug city now t
resolve env provider (some (name_query name)) now t = resolve_name env provider name now t
