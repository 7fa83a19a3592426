-- ===== src/Service/Errors.antt =====
-- internal/service/errors.go, and the functions of audit.go and standard_quest.go that sort errors.
use resy_snipe.Prelude.Texts.{contains, codes}
use resy_snipe.Prelude.{String, Bool, if◌then◌else◌}
use Prim.Native.String.{◌++◌}

-- The sentinels that an error wraps, as errors.Is finds them; `internal_error` wraps none.
pub data ErrorKind : Type 0 where
  not_implemented not_found unauthorized forbidden conflict invalid_plan_hash : ErrorKind
  venue_not_found venue_ambiguous upstream_unavailable invalid_argument : ErrorKind
  token_expired token_revoked invite_expired invite_consumed idempotency_conflict : ErrorKind
  internal_error : ErrorKind

-- An error with its text, Error().
pub record ServiceError : Type 0 where
  pub kind : ErrorKind
  pub text : String

-- The texts of the sentinels.
unfoldable pub sentinel_text : ErrorKind → String
sentinel_text not_implemented = "service: not implemented"
sentinel_text not_found = "service: not found"
sentinel_text unauthorized = "service: unauthorized"
sentinel_text forbidden = "service: forbidden"
sentinel_text conflict = "service: conflict"
sentinel_text invalid_plan_hash = "service: plan hash mismatch"
sentinel_text venue_not_found = "service: venue not found"
sentinel_text venue_ambiguous = "service: venue ambiguous"
sentinel_text upstream_unavailable = "service: upstream unavailable"
sentinel_text invalid_argument = "service: invalid argument"
sentinel_text token_expired = "service: token expired"
sentinel_text token_revoked = "service: token revoked"
sentinel_text invite_expired = "service: invite expired"
sentinel_text invite_consumed = "service: invite consumed"
sentinel_text idempotency_conflict = "service: idempotency conflict"
sentinel_text internal_error = ""

-- errorCodeFor.
unfoldable pub error_code_for : ErrorKind → String
error_code_for not_found = "not_found"
error_code_for unauthorized = "unauthorized"
error_code_for forbidden = "forbidden"
error_code_for conflict = "conflict"
error_code_for invalid_plan_hash = "invalid_plan_hash"
error_code_for venue_not_found = "venue_not_found"
error_code_for venue_ambiguous = "venue_ambiguous"
error_code_for upstream_unavailable = "upstream_unavailable"
error_code_for invalid_argument = "invalid_argument"
error_code_for token_expired = "token_expired"
error_code_for token_revoked = "token_revoked"
error_code_for invite_expired = "invite_expired"
error_code_for invite_consumed = "invite_consumed"
error_code_for idempotency_conflict = "idempotency_conflict"
error_code_for not_implemented = "not_implemented"
error_code_for internal_error = "internal"

-- The sentinel with a text before and after it.
abbrev pub wrapping : ErrorKind → String → String → ServiceError
wrapping k before after = record { kind = k; text = before ++ sentinel_text k ++ after }

abbrev pub internal : String → ServiceError
internal t = record { kind = internal_error; text = t }

-- fmt.Errorf("<call>: %w", err).
abbrev pub wrapped : String → ServiceError → ServiceError
wrapped before e = record e { text = before ++ e.text }

abbrev pub mentions : String → ErrorKind → Bool
mentions persisted k = contains (codes persisted) (codes (sentinel_text k))

abbrev replayed : ErrorKind → String → ServiceError
replayed k persisted = wrapping k "" (" (replay: " ++ persisted ++ ")")

-- replayServiceErr: the first sentinel whose text the persisted one contains.
unfoldable pub replay_service_err : String → ServiceError
unfolding sentinel_text
replay_service_err persisted =
    if mentions persisted invalid_plan_hash
    then replayed invalid_plan_hash persisted
    else if mentions persisted not_found
    then replayed not_found persisted
    else if mentions persisted invalid_argument
    then replayed invalid_argument persisted
    else if mentions persisted venue_not_found
    then replayed venue_not_found persisted
    else if mentions persisted venue_ambiguous
    then replayed venue_ambiguous persisted
    else if mentions persisted upstream_unavailable
    then replayed upstream_unavailable persisted
    else internal ("service: idempotent replay: " ++ persisted)

-- The sentinels of internal/resolver, and any other error.
pub data ResolverKind : Type 0 where
  resolver_venue_not_found resolver_venue_ambiguous resolver_invalid_url : ResolverKind
  resolver_not_resy_host resolver_not_venue_url resolver_other : ResolverKind

pub record ResolverError : Type 0 where
  pub kind : ResolverKind
  pub text : String

abbrev resolver_sentinel : ResolverKind → ErrorKind
resolver_sentinel resolver_venue_not_found = venue_not_found
resolver_sentinel resolver_venue_ambiguous = venue_ambiguous
resolver_sentinel resolver_invalid_url = invalid_argument
resolver_sentinel resolver_not_resy_host = invalid_argument
resolver_sentinel resolver_not_venue_url = invalid_argument
resolver_sentinel resolver_other = upstream_unavailable

-- mapResolverError.
unfoldable pub map_resolver_error : ResolverError → ServiceError
unfolding sentinel_text
map_resolver_error e = wrapping (resolver_sentinel e.kind) "" (": " ++ e.text)
