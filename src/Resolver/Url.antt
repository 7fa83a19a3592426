-- ===== src/Resolver/Url.antt =====
-- internal/resolver/url.go: the addresses of venue pages, as texts of bytes.
use resy_snipe.Domain.Dates.{Date, ℤ, pos, negsuc}
use resy_snipe.Prelude.Results.{Result, err, ok}
use resy_snipe.Service.Errors.{
  ResolverKind, ResolverError, resolver_invalid_url, resolver_not_resy_host, resolver_not_venue_url,
  resolver_venue_not_found, resolver_venue_ambiguous, resolver_other,
}
use resy_snipe.Prelude.Texts.{joined, Text, to_lower, codes, text_eq, trim_space, is_empty}
use resy_snipe.Prelude.{
  Bool, Option, String, ℕ, List, false, if◌then◌else◌, ◌∷◌, reverse, some, ◌&&◌, ◌++◌, ◌==◌, ◌||◌,
  [], none, not,
}

-- What the package net/url makes of an address; `query_get` is Query().Get.
pub record ParsedUrl : Type 0 where
  pub scheme : Text
  pub host : Text
  pub path : Text
  pub query_get : Text → Text

-- url.Parse, with the text of its error; strconv.Atoi and domain.ParseDate.
pub record UrlEnv : Type 0 where
  pub parse : Text → Result String ParsedUrl
  pub atoi : Text → Option ℤ
  pub parse_date : Text → Option Date
  pub text_of : Text → String
  pub quote : Text → String

-- URLHints.
pub record UrlHints : Type 0 where
  pub slug : Text
  pub city : Text
  pub date : Option Date
  pub party : Option ℤ

abbrev pub slash : ℕ
slash = b'/'

-- The map resyHosts.
abbrev pub in_resy_hosts : Text → Bool
in_resy_hosts host = text_eq host (codes "resy.com") || text_eq host (codes "www.resy.com")

-- strings.TrimPrefix of one slash.
unfoldable pub trim_slash : Text → Text
trim_slash [] = []
trim_slash (c ∷ cs) = if c == slash then cs else c ∷ cs

abbrev pub ends_with_slash : Text → Bool
ends_with_slash [] = false
ends_with_slash (c ∷ []) = c == slash
ends_with_slash (c ∷ d ∷ cs) = ends_with_slash (d ∷ cs)

-- strings.Split at the slashes; `part` holds the bytes since the last one, the latest first.
unfoldable pub split_from : Text → Text → List Text
split_from part [] = reverse part ∷ []
split_from part (c ∷ cs) =
    let cut = split_from [] cs in
    let grown = split_from (c ∷ part) cs in if c == slash then reverse part ∷ cut else grown

-- What splitVenuePath returns where it is ok.
pub record VenuePath : Type 0 where
  pub slug : Text
  pub city : Text
  pub had_trailing_slash : Bool

abbrev pub venue_path : Bool → Text → Text → Option VenuePath
venue_path trailing city slug =
    if is_empty city || is_empty slug
    then none
    else some (record { slug = to_lower slug; city = to_lower city; had_trailing_slash = trailing })

-- The parts: cities, the city, venues, the slug, and any others.
abbrev pub of_parts : Bool → List Text → Option VenuePath
of_parts trailing (first ∷ city ∷ third ∷ slug ∷ others) =
    if text_eq first (codes "cities") && text_eq third (codes "venues")
    then venue_path trailing (trim_space city) (trim_space slug)
    else none
of_parts trailing _ = none

-- splitVenuePath.
unfoldable pub split_venue_path : Text → Option VenuePath
unfolding trim_slash split_from to_lower trim_space
split_venue_path p =
    let rest = trim_slash p in
    let trimmed = reverse (trim_slash (reverse rest)) in
    if is_empty trimmed then none else of_parts (ends_with_slash rest) (split_from [] trimmed)

-- canonicalURL.
unfoldable pub canonical_url : Text → Text → Text → Text → Bool → Text
canonical_url scheme host city slug trailing =
    let path = codes "/cities/" ++ city ++ codes "/venues/" ++ slug in
    scheme ++ codes "://" ++ host ++ (if trailing then path ++ codes "/" else path)

-- parseDateParam.
unfoldable pub parse_date_param : UrlEnv → Text → Option Date
parse_date_param env s = if is_empty s then none else env.parse_date s

abbrev pub not_negative : Option ℤ → Option ℤ
not_negative none = none
not_negative (some (pos n)) = some (pos n)
not_negative (some (negsuc n)) = none

-- parsePartyParam.
unfoldable pub parse_party_param : UrlEnv → Text → Option ℤ
parse_party_param env s = if is_empty s then none else not_negative (env.atoi s)

unfoldable pub resolver_text : ResolverKind → String
resolver_text resolver_invalid_url = "resolver: invalid url"
resolver_text resolver_not_resy_host = "resolver: not a resy host"
resolver_text resolver_not_venue_url = "resolver: not a venue url"
resolver_text resolver_venue_not_found = "resolver: venue not found"
resolver_text resolver_venue_ambiguous = "resolver: venue ambiguous"
resolver_text resolver_other = ""

-- fmt.Errorf("%w<text>", sentinel).
abbrev pub refusing : ResolverKind → String → ResolverError
refusing k t = record { kind = k; text = joined (resolver_text k) t }

abbrev pub with_hints : UrlEnv → ParsedUrl → VenuePath → Text × UrlHints
with_hints env u p = (
  canonical_url (to_lower u.scheme) (to_lower u.host) p.city p.slug p.had_trailing_slash,
  record {
    slug = p.slug;
    city = p.city;
    date = parse_date_param env (u.query_get (codes "date"));
    party = parse_party_param env (u.query_get (codes "seats"));
  },
)

abbrev pub on_path : UrlEnv → ParsedUrl → Option VenuePath → Result ResolverError (Text × UrlHints)
on_path env u none = err (refusing resolver_not_venue_url (joined ": path " (env.quote u.path)))
on_path env u (some p) = ok (with_hints env u p)

abbrev pub is_http : Text → Bool
is_http scheme = text_eq scheme (codes "http") || text_eq scheme (codes "https")

abbrev pub on_parsed : UrlEnv → Result String ParsedUrl → Result ResolverError (Text × UrlHints)
on_parsed env (err t) = err (refusing resolver_invalid_url (joined ": " t))
on_parsed env (ok u) =
    if not (is_http (to_lower u.scheme))
    then err (
        refusing resolver_invalid_url
          (joined ": scheme " (joined (env.quote u.scheme) " is not http(s)")))
    else if is_empty (to_lower u.host)
    then err (refusing resolver_invalid_url ": missing host")
    else if not (in_resy_hosts (to_lower u.host))
    then err (refusing resolver_not_resy_host (joined ": host " (env.quote (to_lower u.host))))
    else on_path env u (split_venue_path u.path)

-- ParseResyURL: the canonical address and the hints.
unfoldable pub parse_resy_url : UrlEnv → Text → Result ResolverError (Text × UrlHints)
unfolding canonical_url split_venue_path parse_date_param parse_party_param
parse_resy_url env raw =
    if is_empty (trim_space raw)
    then err (refusing resolver_invalid_url ": empty input")
    else on_parsed env (env.parse (trim_space raw))
