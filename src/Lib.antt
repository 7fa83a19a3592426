-- ===== src/Lib.antt =====
-- resy-snipe: a model of the program that books a restaurant table at the moment it is released,
-- with the theorems that hold of it.
--
-- A goal is planned into an intent (a strategy and a list of slots), an intent is stored as a snipe,
-- and the engine takes the snipe along its state machine: it waits for the release, polls a provider
-- or fires at a given time, and races to book. Every status change goes through one gate, which
-- writes to the store before memory and the subscribers see it. The service stands in front of all
-- this for many users: it plans a goal, pins the plan by its hash, stores it as a quest of the user and
-- submits the snipe of the same id, remembers the outcome under an idempotency key, audits the call,
-- and hands the quest's events on.
--
-- Files and what they model:
--   Domain/Status.antt        internal/domain/status.go: the statuses, the transition table and
--                             its check at program start.
--   Domain/Dates.antt         internal/domain/date.go and the part of package time that is used.
--   Domain/Intent.antt        internal/domain/intent.go, venue.go, release.go.
--   Domain/Snipe.antt         internal/domain/snipestate.go, event.go: NewSnipeState, Transition.
--   Domain/Goal.antt          internal/domain/goal.go: Validate.
--   Domain/Idempotency.antt   internal/domain/idempotency.go: IdempotencyKey.
--   Providers.antt            internal/providers/provider.go: the data and errors of a provider.
--   Planner/Slots.antt        internal/planner/slots.go: ExpandSlots.
--   Planner/Drop.antt         internal/planner/drop.go: ComputeDrop, DiscoveredProbeWindow.
--   Planner/Strategy.antt     internal/planner/strategy.go: SelectStrategy.
--   Planner/Schedule.antt     internal/planner/plan.go: fireScheduleFor, projectSlots.
--   Planner/Build.antt        internal/planner/plan.go: BuildPlan.
--   Domain/Plan.antt          internal/domain/plan.go: the canonical JSON of a plan and its hash.
--   Store/Snipes.antt         internal/store/sqlite.go and intent_codec.go: the snipes, events and
--                             observed releases, and how a row is read, on the values that its
--                             texts spell.
--   Store/Snipes/Wire.antt    the same with the columns and the JSON of an intent as texts:
--                             MarshalIntent, UnmarshalIntent, scanSnipeRow and their errors.
--   Store/Idempotency.antt    internal/store/idempotency.go.
--   Store/Quests.antt         internal/store/quests.go and quest_events.go: the quests of all users
--                             and their events; Quests/Listing.antt has ListQuests and
--                             ListQuestEvents, Quests/GoalCodec.antt the JSON form of a goal, which
--                             internal/service/goal_codec.go writes out again.
--   Store/Accounts.antt       internal/store/accounts.go.
--   Store/Tokens.antt         internal/store/tokens.go.
--   Store/Cache.antt          internal/store/cache.go.
--   Store/Users.antt          internal/store/users.go.
--   Resolver/Url.antt         internal/resolver/url.go and errors.go.
--   Resolver/Slug.antt        internal/resolver/resolver.go: the cached look-up by slug and city.
--   Resolver/Resolve.antt     the same: Resolve, and the look-up by name.
--   Engine/World.antt         what a call of internal/engine works with.
--   Engine/Transition.antt    internal/engine/state.go (Transition), run.go (transitionToScheduled),
--                             engine.go (Load, Submit).
--   Engine/Release.antt       internal/engine/release.go: the three strategies.
--   Engine/Run.antt           internal/engine/run.go: Run.
--   Engine/Race.antt          internal/engine/race.go: RunBookingRace.
--   Engine/Subscribe.antt     internal/engine/subscribe.go: Subscribe, cancel, emit.
--   Service/Errors.antt       internal/service/errors.go, and how errors are sorted and replayed.
--   Service/State.antt        internal/service/audit.go, and the keys of standard_quest.go.
--   Service/Planning.antt     internal/service/standard_quest.go: ResolveVenue, PlanQuest.
--   Service/Creating.antt     the same: CreateQuest.
--   Service/Reading.antt      the same: GetQuest, ListQuests.
--   Service/Canceling.antt    the same: CancelQuest.
--   Service/Subscribing.antt  the same: SubscribeQuest.
--   Service/Authority.antt    internal/service/ctxauth.go.
--   Service/Accounts.antt     internal/service/standard_auth.go: Login, ListAccounts, and the calls
--                             that are not implemented.
--   Service/Tokens.antt       the same: IssueToken, RevokeToken, ListTokens.
-- The theorems stand in child modules of these, named for what they prove. Prelude.antt has what
-- all share; Examples.antt has concrete inputs and tests.
--
-- How the code is read. An instant is the number of nanoseconds since Go's zero time, a duration is
-- not negative (saturation in Sub and a negative PollFloor are left out). A time.Location is data of
-- the tz database: two functions between instants and wall times, of which nothing is assumed. The
-- database is a record of lists, one per table; JSON columns hold structured values. A world has the
-- clock, the database, the snipe in memory, the notifications sent and the number of interactions
-- so far; what lies outside (failing statements, time that passes, cancellation, a provider's
-- answers, the timer's end) is a function of that number, so every behaviour of it is covered by a
-- theorem about all of them. The engine's store keeps a snipe's dates and times as values, so it has
-- no error for a text that does not parse; Store/Snipes/Wire.antt has these. A write that is refused because its context was canceled is a failing
-- statement. url.Parse, the digest, fmt's decimals and the intent's hash are parameters. Texts that
-- are trimmed or lowered are lists of bytes, read as ASCII. The service works on a state with the
-- tables of quests, accounts, tokens, keys and audit rows and with the engine's world; the resolver,
-- which has a model of its own, the calendar of the provider, the login at Resy, the random bytes,
-- the minted id and each reading of the clock are arguments. Its tables' statements fail only
-- by a constraint. A subscription is a state too, and what happens to it a list of steps: the call
-- reads the history, replays an event, subscribes to the engine after the last, reads the channel;
-- the engine emits at any time, the context ends. What other calls of the service write to the
-- store meanwhile is not among the steps.
--
-- The booking race interleaves goroutines. Its model has a state and the moves of the loop and of
-- each goroutine, one at a time; a run is a list of moves, and run_booking_race is defined for the
-- lists that are runs to a return. The polling loops take fuel, one unit a round: one more than the
-- number of 100 ms intervals in the window is enough, and proved so. The loop of enumerateTimes
-- takes one unit a minute of the window.
--
-- Not modelled: log output and the texts of errors of the stores, the planner and the engine, the
-- codecs of event attributes and slot payloads, invites, the construction of the service and of the
-- resolver, the Resy adapter, the HTTP transport, secrets, the daemon and the command line.
mod Prelude
pub mod Domain
pub mod Providers
pub mod Planner
pub mod Store
pub mod Service
pub mod Resolver
pub mod Engine
mod Examples
