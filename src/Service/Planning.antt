-- ===== src/Service/Planning.antt =====
-- ResolveVenue and PlanQuest of internal/service/standard_quest.go.
use resy_snipe.Planner.Strategy.{Note}
use resy_snipe.Planner.Build.{PlanInput, build_plan}
use resy_snipe.Domain.Plan.{Plan}
use resy_snipe.Providers.{Calendar, ProviderError}
use resy_snipe.Service.Errors.{
  ServiceError, map_resolver_error, wrapping, invalid_argument, internal,
}
use resy_snipe.Domain.Dates.{Date, Time, ℤ}
use resy_snipe.Prelude.Results.{Result, ok, err, map_err, ◌>>◌, ◌>>=◌}
use resy_snipe.Prelude.{Option, String, some, [], none, if◌then◌else◌, str_eq}
use resy_snipe.Domain.Goal.{VenueQuery, Goal, validate}
use resy_snipe.Domain.Intent.{VenueRef, Venue, venue_text, as_ref}
use resy_snipe.Service.State.{ServiceEnv, audit, ServiceState}
use Prim.Native.String.{◌++◌}

abbrev pub action_venue_resolve : String
action_venue_resolve = "venue.resolve"

abbrev pub action_quest_plan : String
action_quest_plan = "quest.plan"

-- `<call>: <invalid argument>: userID is required`.
abbrev pub user_required : String → ServiceError
user_required call = wrapping invalid_argument (call ++ ": ") ": userID is required"

abbrev pub failure_of : {A : Type 0} → Result ServiceError A → Option ServiceError
failure_of (ok a) = none
failure_of (err e) = some e

abbrev pub target_of : {A : Type 0} → (A → String) → Result ServiceError A → String
target_of f (ok a) = f a
target_of f (err e) = ""

abbrev pub resolved : ServiceEnv → Option VenueQuery → Result ServiceError Venue
resolved env q = map_err map_resolver_error (env.resolve q)

-- queryAuditTarget; `query_text` is VenueQuery.String.
abbrev query_audit_target : (VenueQuery → String) → Option VenueQuery → String
query_audit_target query_text none = ""
query_audit_target query_text (some q) = query_text q

abbrev resolve_target :
    (VenueQuery → String) → Option VenueQuery → Result ServiceError Venue → String
resolve_target query_text q (ok v) = venue_text (as_ref v)
resolve_target query_text q (err e) = query_audit_target query_text q

-- ResolveVenue.
unfoldable pub resolve_venue :
    ServiceEnv
    → (VenueQuery → String)
    → String
    → Option VenueQuery
    → ServiceState
    → Result ServiceError Venue × ServiceState
unfolding audit map_resolver_error
resolve_venue env query_text user q s =
    let answer = resolved env q in
    if str_eq user "" then (err (user_required "ResolveVenue"), s) else (
      answer,
      audit user action_venue_resolve (resolve_target query_text q answer) (failure_of answer) s,
    )

abbrev no_calendar : VenueRef → Calendar
no_calendar v = record { venue = record { provider = ""; ref = "" }; days = [] }

-- The calendar snapshot: without a provider, and when it fails, the zero value.
abbrev snapshot_of :
    Option (VenueRef → Date → ℤ → Result ProviderError Calendar) → VenueRef → Date → ℤ → Calendar
snapshot_of none v d n = no_calendar v
snapshot_of (some calendar) v d n = elim (calendar v d n) [ err e ↦ no_calendar v | ok c ↦ c ]

unfoldable pub plan_input : ServiceEnv → Goal → Time → Venue → PlanInput
plan_input env goal now venue = record {
  goal = goal;
  venue = venue;
  now = now;
  calendar_snapshot = snapshot_of env.calendar (as_ref venue) goal.date goal.party;
  observed_release_avg = none;
  release_config = none;
  continuous_until = 0;
}

-- What PlanQuest computes at the instant `now`.
unfoldable pub plan_outcome : ServiceEnv → Goal → Time → Result ServiceError (Plan Note)
unfolding plan_input
plan_outcome env goal now = do
  map_err (λ e. wrapping invalid_argument "PlanQuest: " (": " ++ env.goal_error_text e))
      (validate env.hostname env.utc goal now)
  venue ← resolved env goal.venue_query
  map_err (λ e. internal ("PlanQuest: " ++ env.plan_error_text e))
      (build_plan env.formats (plan_input env goal now venue))

-- PlanQuest.
unfoldable pub plan_quest :
    ServiceEnv
    → String
    → Goal
    → Time
    → ServiceState
    → Result ServiceError (Plan Note) × ServiceState
unfolding audit plan_outcome
plan_quest env user goal now s =
    let answer = plan_outcome env goal now in
    if str_eq user "" then (err (user_required "PlanQuest"), s) else (
      answer,
      audit user action_quest_plan (target_of (λ (p : Plan Note). p.hash) answer)
          (failure_of answer) s,
    )
