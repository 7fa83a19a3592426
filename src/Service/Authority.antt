-- ===== src/Service/Authority.antt =====
-- internal/service/ctxauth.go: who calls, as the transport stamps it on the context.
use resy_snipe.Service.Errors.{ServiceError, wrapping, forbidden}
use resy_snipe.Prelude.Results.{Result, ok, err}
use resy_snipe.Prelude.{Option, String, some, none, if◌then◌else◌, str_eq}

-- The values on the context; before they are stamped there are none.
pub record Caller : Type 0 where
  pub caller_id : String
  pub caller_tier : String

-- ContextWithCaller.
unfoldable pub context_with_caller : String → String → Option Caller
context_with_caller user scope = some (record { caller_id = user; caller_tier = scope })

-- CallerUserID.
unfoldable pub caller_user_id : Option Caller → String
caller_user_id none = ""
caller_user_id (some c) = c.caller_id

-- CallerScope.
unfoldable pub caller_scope : Option Caller → String
caller_scope none = ""
caller_scope (some c) = c.caller_tier

-- RequireOperatorScope.
unfoldable pub require_operator_scope : Option Caller → Result ServiceError (Unit {0})
unfolding caller_scope
require_operator_scope ctx =
    if str_eq (caller_scope ctx) "operator"
    then ok tt
    else err (wrapping forbidden "" ": operator scope required")
