-- ===== src/Engine/World.antt =====
-- What a call of internal/engine works with: the store and the clock, the snipe in memory, and the
-- notifications sent. The outside answers by the number of the interaction: whether a statement of
-- the store fails, how much time passes, whether the context is canceled, and what the provider says.
use resy_snipe.Domain.Snipe.{Event, SnipeState}
use resy_snipe.Store.Snipes.{Db, StoreError}
use resy_snipe.Providers.{ProviderError, Calendar, Slot, Confirmation}
use resy_snipe.Domain.Dates.{Time, Date, millisecond, ℤ, Location, WallTime}
use resy_snipe.Prelude.Results.{Result, ok, err}
use resy_snipe.Domain.Intent.{BookingPolicy, VenueRef, Intent}
use resy_snipe.Prelude.{
  String, ℕ, ◌++◌, ◌+◌, Bool, Option, max, suc, ◌∷◌, [], ◌*◌, List, if◌then◌else◌, ◌==◌,
}
use resy_snipe.Domain.Status.{Status}

-- How a wait on a timer and on the context ends: the context ends first; or the timer fires, and its
-- callback finds the context canceled, after which the select takes either channel; or the callback
-- runs, and the context is canceled by its end or not.
pub data TimerFate : Type 0 where
  stopped skipped_done skipped_canceled fired fired_canceled : TimerFate

-- A nil Provider has `has_provider` false; `is_preparer` is the type assertion to SlotPreparer.
-- `confirm` takes the number of the goroutine; `decimal` is fmt's %d, `sha256_hex` the digest and
-- its hex form, and `intent_hash` is Intent.Hash.
pub record Env : Type 0 where
  pub policy : BookingPolicy
  pub has_provider : Bool
  pub is_preparer : Bool
  pub store_fails : ℕ → Bool
  pub lag : ℕ → ℕ
  pub canceled : ℕ → Bool
  pub calendar : ℕ → VenueRef → Date → ℤ → Result ProviderError Calendar
  pub find : ℕ → Intent → List WallTime → Result ProviderError (List Slot)
  pub prepare : ℕ → Slot → Result ProviderError Slot
  pub confirm : ℕ → Slot → String → Result ProviderError Confirmation
  pub error_text : ProviderError → String
  pub decimal : ℕ → String
  pub sha256_hex : String → String
  pub timer : ℕ → TimerFate
  pub venue_tz : VenueRef → Option Location
  pub utc : Location
  pub intent_hash : Intent → String

-- Notification: the bootstrap one has no previous status.
pub record Notification : Type 0 where
  pub snipe_id : String
  pub from : Option Status
  pub to : Status
  pub event : Event

-- `sent` holds the notifications, the newest last; `calls` the times at which Calendar,
-- Find and PrepareSlot were called, the newest first.
pub record World : Type 0 where
  pub now : Time
  pub step : ℕ
  pub db : Db
  pub live : SnipeState
  pub sent : List Notification
  pub calls : List Time

pub data EngineError : Type 0 where
  invalid_transition : Status → Status → EngineError
  store_failure context_canceled missing_provider nil_release bad_probe_window : EngineError
  until_required no_preparer inventory_was_empty all_attempts_failed out_of_fuel : EngineError
  provider_failure : ProviderError → EngineError
  store_refused : StoreError → EngineError
  race_failed : String → EngineError → EngineError
  race_unrecorded : String → EngineError → EngineError → EngineError

-- What a call returns, and the world that it leaves behind.
abbrev pub Outcome : Type 0
Outcome = Result EngineError (Unit {0}) × World

-- One interaction is over.
unfoldable pub tick : Env → World → World
tick env w = record w { now = w.now + env.lag w.step; step = suc w.step }

-- Engine.emit to the subscribers, after the write is committed.
abbrev pub emit : Notification → World → World
emit n w = record w { sent = w.sent ++ n ∷ [] }

-- pollInterval.
unfoldable pub poll_interval : Env → ℕ
poll_interval env = max env.policy.poll_floor (100 * millisecond)

-- A call of the provider.
unfoldable pub called : Env → World → World
unfolding tick
called env w = record (tick env w) { calls = w.now ∷ w.calls }

-- `if err != nil { return err }` between two calls.
abbrev pub and_then : Outcome → (World → Outcome) → Outcome
and_then (ok done, w) f = f w
and_then (err e, w) f = (err e, w)

-- waitWithCtx.
unfoldable pub wait_with_ctx : Env → ℕ → World → Outcome
unfolding tick
wait_with_ctx env d w =
    if d == 0
    then (ok tt, w)
    else if env.canceled w.step
    then (err context_canceled, tick env w)
    else (ok tt, record (tick env w) { now = w.now + d + env.lag w.step })
