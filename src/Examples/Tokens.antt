-- ===== src/Examples/Tokens.antt =====
-- Tests of the tokens and of internal/resolver.
use resy_snipe.Resolver.Slug.{
  CacheTables, ResolverEnv, VenueProvider, is_stale, default_ttl, resolve_slug, resolve_trimmed,
}
use resy_snipe.Store.Tokens.Revoked.{finds, revoke_token_lasts}
use resy_snipe.Service.Tokens.Issued.{fresh_row, issue_token_found}
use resy_snipe.Service.Authority.{require_operator_scope, caller_scope}
use resy_snipe.Store.Tokens.Writes.{run_tokens, apply_token_write, write_token}
use resy_snipe.Prelude.Texts.{trim_space, trim_left, codes}
use resy_snipe.Domain.Dates.{second}
use resy_snipe.Examples.Services.{service_state, resolved_venue}
use resy_snipe.Examples.{plain_utc}
use resy_snipe.Providers.{rate_limited}
use resy_snipe.Service.State.{ServiceState}
use resy_snipe.Resolver.Again.{served_stale, resolve_slug-again}
use resy_snipe.Prelude.Results.{err, ok, is_ok}
use resy_snipe.Store.Tokens.{
  TokenRow, TokenDbRow, insert_token, has_token, has_hash, token_columns, revoke_token,
  stamp_revoked, find_token_by_hash, rows_affected,
}
use resy_snipe.Prelude.{List, String, [], some, ◌*◌, ◌∷◌, none, ◌≡◌, refl, str_eq, true, false}
use resy_snipe.Store.Cache.{
  encode_venue, VenueCodec, get_venue_cache, find_venue, cache_miss, decode_venue,
  upsert_venue_cache, upsert_venue,
}
use resy_snipe.Service.Tokens.{
  BearerToken, IssueCall, TokenEnv, issue_token, mint, issue_checked, token_record,
}

abbrev token_users : List String
token_users = "usr_1" ∷ []

-- A text stands for its own digest.
abbrev token_env : TokenEnv
token_env = record {
  sum256 = λ t. t;
  base32 = λ t. "AAAA";
  hex = λ t. "00";
  quote = λ t. t;
  token_error_text = λ e. "token";
}

abbrev issue_call : IssueCall
issue_call = record {
  ctx = some (record { caller_id = "usr_1"; caller_tier = "operator" });
  user = "usr_1";
  label = "laptop";
  scope = "user";
  raw = ok (7 ∷ []);
  id_bytes = ok (9 ∷ []);
  now = 5 * second;
}

abbrev laptop_token : BearerToken
laptop_token = record {
  id = "tok_00";
  token = "tok_AAAA";
  label = "laptop";
  scope = "user";
  created_at = 5 * second;
}

unfoldable issue_token_state : ServiceState
unfolding issue_token
issue_token_state = (issue_token token_env issue_call service_state).1

issue_token_found_example :
    (str_eq (caller_scope issue_call.ctx) "operator" ≡ true)
    × (find_token_by_hash (codes "tok_AAAA") issue_token_state.token_rows
        ≡ ok (fresh_row token_env issue_call laptop_token))
unfolding issue_token_state issue_token mint issue_checked require_operator_scope caller_scope
    token_record insert_token has_token has_hash token_columns
issue_token_found_example =
    issue_token_found token_env issue_call service_state issue_token_state laptop_token refl

abbrev first_token : TokenRow
first_token = record {
  id = "tok_1";
  user_id = "usr_1";
  hash = 1 ∷ 2 ∷ [];
  scopes = "user";
  label = "laptop";
  created_at = 5 * second;
  last_seen = none;
  revoked_at = none;
}

-- The same id with another hash.
abbrev second_token : TokenRow
second_token = record first_token { hash = 3 ∷ [] }

abbrev revoked_rows : List TokenDbRow
revoked_rows =
    record {
      id = "tok_1";
      user_id = "usr_1";
      hash = 1 ∷ 2 ∷ [];
      scopes = "user";
      label = "laptop";
      created_s = 5;
      last_seen_s = none;
      revoked_s = some 9;
    }
    ∷ []

revoke_token_lasts_example :
    (finds "tok_1" (
        find_token_by_hash
          (1 ∷ 2 ∷ [])
          (run_tokens token_users (write_token second_token ∷ []) revoked_rows))
      ≡ false)
    × (has_token "tok_1" (run_tokens token_users (write_token second_token ∷ []) revoked_rows)
        ≡ true)
    × (is_ok (
          revoke_token "usr_1" "tok_1"
            (10 * second)
            (run_tokens token_users (write_token second_token ∷ []) revoked_rows))
        ≡ false)
unfolding run_tokens apply_token_write insert_token has_token has_hash token_columns revoke_token
    stamp_revoked rows_affected
revoke_token_lasts_example =
    revoke_token_lasts token_users (write_token first_token ∷ []) (write_token second_token ∷ [])
      "usr_1" "tok_1" (9 * second) revoked_rows (1 ∷ 2 ∷ []) "usr_1" (10 * second) refl

abbrev venue_codec : VenueCodec
venue_codec = record {
  to_json = λ j. "venue";
  of_json = λ t. some (record { provider = "resy"; ref = "5286"; name = ""; tz = "UTC" });
  list_to_json = λ js. "venues";
  list_of_json = λ t. none;
  load_location = λ t. some plain_utc;
}

abbrev resolver_env : ResolverEnv
resolver_env = record {
  ttl = default_ttl;
  codec = venue_codec;
  url = record {
    parse = λ t. err "url";
    atoi = λ t. none;
    parse_date = λ t. none;
    text_of = λ t. "text";
    quote = λ t. "text";
  };
  provider_error_text = λ e. "provider";
  decimal = λ n. "2";
}

abbrev provider_up : VenueProvider
provider_up = record {
  resolve_venue = λ slug city. ok resolved_venue;
  search_venues_by_name = λ name. ok [];
}

abbrev provider_down : VenueProvider
provider_down = record {
  resolve_venue = λ slug city. err rate_limited;
  search_venues_by_name = λ name. err rate_limited;
}

abbrev no_cache : CacheTables
no_cache = record { venues = []; names = [] }

-- Three days later and without the provider, the venue is still known.
resolve_slug-again_example :
    (resolve_slug resolver_env provider_down
      (codes " astoria ")
      (codes "dc")
      (3 * default_ttl)
      (resolve_slug resolver_env provider_up (codes " astoria ") (codes "dc") 0 no_cache).1).0
    ≡ ok resolved_venue
unfolding is_stale served_stale get_venue_cache find_venue trim_space trim_left encode_venue
    decode_venue resolve_slug resolve_trimmed upsert_venue_cache upsert_venue
resolve_slug-again_example =
    resolve_slug-again resolver_env provider_up provider_down (codes " astoria ") (codes "dc") 0
      (3 * default_ttl) no_cache resolved_venue cache_miss refl (refl, refl) refl refl refl
