-- ===== src/Examples/Services.antt =====
-- Tests of internal/service and of the plan's hash.
use resy_snipe.Prelude.Sorts.{sort_by, insert_by}
use resy_snipe.Service.Subscribing.Order.{with_rounds, subscription_run_in_order}
use resy_snipe.Store.Quests.Listing.{list_quest_events}
use resy_snipe.Prelude.Texts.{trim_space}
use resy_snipe.Planner.Drop.{probe_lead, probe_width}
use resy_snipe.Planner.Slots.{
  expand_slots, cross, enumerate_times, minutes_of_day, normalize_tables,
}
use resy_snipe.Service.Creating.Refused.{ShowsBookable, create_refuses_earlier_plan}
use resy_snipe.Domain.Goal.{validate, validate_venue_query, today_start}
use resy_snipe.Service.Errors.{error_code_for, sentinel_text}
use resy_snipe.Planner.Build.Hash.{probe_midnight, build_plan_hash_keeps}
use resy_snipe.Planner.Strategy.{
  calendar_shows_bookable, select_strategy, Note, select_in, select_unreleased, end_of_day_in,
  continuous_note, discovered_note, start_of_day_in, best_effort_discovered_probe,
}
use resy_snipe.Service.Planning.{plan_input, plan_outcome, plan_quest}
use resy_snipe.Planner.Build.{build_plan, PlanInput, assemble}
use resy_snipe.Service.Frame.{SameButAudit}
use resy_snipe.Service.Creating.Replayed.{again, create-again, EndsAlike}
use resy_snipe.Service.Creating.Ends.{CreateEnd, create_ends}
use resy_snipe.Providers.{ProviderError, Calendar}
use resy_snipe.Service.Canceling.Effects.{CancelEnd, cancel_quest_ends}
use resy_snipe.Domain.Dates.{Date, millisecond, ℤ, Time, add_date, wall_time_after}
use resy_snipe.Prelude.Results.{ok, Result}
use resy_snipe.Store.Idempotency.{get_idempotency_result, find_exact, find_freshest}
use resy_snipe.Engine.World.{Notification}
use resy_snipe.Domain.Status.{finding, submitted, is_terminal}
use resy_snipe.Examples.Quests.{dinner_goal, quests, one_json, one_goal}
use resy_snipe.Examples.{env, plain_utc, world, venue, dinner_date, at_clock}
use resy_snipe.Domain.Plan.{Formats, Plan, with_hash}
use resy_snipe.Service.State.{ServiceEnv, ServiceState, idempotency_gate}
use resy_snipe.Domain.Snipe.{EventType, found_event, booked_event, submitted_event, scheduled_event}
use resy_snipe.Service.Canceling.{CancelCall, cancel_gate, cancel_quest}
use resy_snipe.Store.Quests.{QuestRow, find_quest_of, quest_columns, get_quest, scan_quest_row}
use resy_snipe.Service.Subscribing.{
  Subscription, SubscriptionStep, emitted, subscription_run, pumped, history_read, pumping,
  is_terminal_event, replayed, started,
}
use resy_snipe.Domain.Intent.{Venue, VenueRef, continuous_release, discovered_release, as_ref}
use resy_snipe.Service.Subscribing.Twice.{
  notify_both, event_row, notify_both_writes_twice, FollowsQuest,
}
use resy_snipe.Service.Creating.{CreateCall, create_gate, create, hash_mismatch}
use Prim.Native.String.append
use Prim.Native.Char.{Char, code}
use Prim.Native.String.{String, ◌++◌}
use text.Mathlib.TextLemmas.{head-eq_of_cons-eq, tail-eq_of_cons-eq}
use resy_snipe.Prelude.{
  ℕ, zero, suc, ◌≡◌, refl, sym, ◌∙◌, ap, arith, Bool, List, [], none, some, true, ◌*◌, ◌∷◌, ◌-◌,
  ◌+◌, false,
}

abbrev stop : Char
stop = "."

abbrev stroke : Char
stroke = "1"

-- A time stamp with one stroke for each nanosecond, and a stop.
strokes : ℕ → String
strokes zero = String.◌∷◌ stop String.[]
strokes (suc n) = String.◌∷◌ stroke (strokes n)

cons_append : (c : Char) (s t : String) → String.◌∷◌ c s ++ t ≡ String.◌∷◌ c (s ++ t)
cons_append c s t = λ i. append.cons c s t i

strokes-readable : (t u : ℕ) (s r : String) → strokes t ++ s ≡ strokes u ++ r → t ≡ u
unfolding strokes
strokes-readable zero zero s r h = refl
strokes-readable zero (suc u) s r h = omega (
  arith,
  ap code (
      head-eq_of_cons-eq
        (sym (cons_append stop String.[] s) ∙ h ∙ cons_append stroke (strokes u) r)),
)
strokes-readable (suc t) zero s r h = omega (
  arith,
  ap code (
      head-eq_of_cons-eq
        (sym (cons_append stroke (strokes t) s) ∙ h ∙ cons_append stop String.[] r)),
)
strokes-readable (suc t) (suc u) s r h = ap suc (
    strokes-readable t u s r (
      tail-eq_of_cons-eq
        (sym (cons_append stroke (strokes t) s) ∙ h ∙ cons_append stroke (strokes u) r)))

abbrev formats : Formats
formats = record {
  json_string = λ s. s;
  json_bytes = λ t. "bytes";
  decimal = λ n. "1";
  utc_nanos = strokes;
  date_text = λ d. "date";
  wall_text = λ w. "time";
  sha256_hex = λ s. s;
}

-- The venue that every query resolves to.
abbrev pub resolved_venue : Venue
resolved_venue = record { provider = "resy"; ref = "5286"; name = ""; tz = some plain_utc }

-- A calendar that shows every date as bookable, or as not bookable.
abbrev calendar_of : Bool → VenueRef → Date → ℤ → Result ProviderError Calendar
calendar_of shown v d n =
    ok (record { venue = v; days = record { date = d; available = shown } ∷ [] })

abbrev service : ServiceEnv
service = record {
  formats = formats;
  engine_env = env;
  hostname = λ t. none;
  utc = plain_utc;
  resolve = λ q. ok resolved_venue;
  calendar = some (calendar_of true);
  to_json = one_json;
  of_json = one_goal;
  parse_cursor = λ t. none;
  persist_events = true;
  quote = λ t. t;
  goal_error_text = λ e. "goal";
  plan_error_text = λ e. "plan";
  store_error_text = λ e. "store";
  account_error_text = λ e. "account";
  key_error_text = λ e. "key";
  codec_error_text = λ e. "codec";
  engine_error_text = λ e. "engine";
}

abbrev pub service_state : ServiceState
service_state = record {
  quest_db = quests;
  keys = [];
  audit_rows = [];
  token_rows = [];
  engine = world;
}

abbrev create_call : CreateCall
create_call = record {
  user = "usr_1";
  goal = dinner_goal;
  opts = record { plan_hash = none; idempotency_key = some "k" };
  minted = ok "q_9";
  now = 100;
  plan_now = 101;
}

create_ends_example :
    CreateEnd service create_call quests.quests world
      (create service create_call service_state).0
      (create service create_call service_state).1.quest_db.quests
      (create service create_call service_state).1.engine
unfolding create_gate idempotency_gate get_idempotency_result find_exact find_freshest
create_ends_example = create_ends service create_call service_state refl refl

-- A goal that names no venue; its call fails with an invalid argument.
abbrev unnamed_call : CreateCall
unnamed_call = record create_call { goal = record dinner_goal { venue_query = none } }

create-again_example :
    ((create service
        (again unnamed_call 900 901 (ok "q_10") (some "sha256:0"))
        (create service unnamed_call service_state).1).0.0
      ≡ (create service unnamed_call service_state).0.0)
    × EndsAlike
        (create service unnamed_call service_state).0.1
        (create service
          (again unnamed_call 900 901 (ok "q_10") (some "sha256:0"))
          (create service unnamed_call service_state).1).0.1
    × SameButAudit
        (create service unnamed_call service_state).1
        (create service
          (again unnamed_call 900 901 (ok "q_10") (some "sha256:0"))
          (create service unnamed_call service_state).1).1
unfolding create_gate idempotency_gate get_idempotency_result find_exact find_freshest create
    plan_quest plan_outcome validate sentinel_text error_code_for
create-again_example =
    create-again service unnamed_call "k" service_state
      (create service unnamed_call service_state).1 900 901 (ok "q_10") (some "sha256:0") refl refl
      refl tt refl refl (omega arith)
      (record {
        told = tt;
        given = refl;
        hash = refl;
        missing = refl;
        argument = refl;
        no_venue = refl;
        venues = refl;
        upstream = refl;
      })

abbrev read_quest : QuestRow
read_quest = record {
  id = "q_2";
  user_id = "usr_1";
  account_id = "acct_1";
  goal_json = "{}";
  plan_hash = "sha256:0";
  status = finding;
  created_at = 9 * millisecond;
  updated_at = 9 * millisecond;
  completed_at = none;
}

abbrev cancel_call : CancelCall
cancel_call = record {
  user = "usr_1";
  quest = "q_2";
  cancel_reason = "changed my mind";
  key = none;
  now = 40 * millisecond;
}

cancel_quest_ends_example :
    ((cancel_quest service cancel_call service_state).0 ≡ none)
    × ((cancel_quest service cancel_call service_state).1.engine ≡ world)
    × CancelEnd cancel_call service_state read_quest
        (cancel_quest service cancel_call service_state).1
unfolding cancel_gate idempotency_gate get_quest find_quest_of scan_quest_row quest_columns
cancel_quest_ends_example =
    cancel_quest_ends service cancel_call service_state read_quest refl refl refl

abbrev subscription : Subscription
subscription = record {
  user = "usr_1";
  quest = "q_2";
  terminal = false;
  phase = pumping [];
  delivered = [];
}

abbrev note_of : EventType → Notification
note_of kind = record {
  snipe_id = "q_2";
  from = none;
  to = submitted;
  event = record { kind = kind; at = 50 * millisecond; attrs = [] };
}

-- One event of the quest is stored.
abbrev past_state : ServiceState
past_state = record service_state {
  quest_db = record quests {
    quest_events = event_row subscription (note_of submitted_event).event ∷ [];
  };
}

-- The first emission falls in the gap before the call subscribes to the engine.
abbrev some_steps : List SubscriptionStep
some_steps =
    history_read
    ∷ emitted (note_of scheduled_event)
    ∷ replayed
    ∷ replayed
    ∷ emitted (note_of found_event)
    ∷ pumped
    ∷ emitted (note_of booked_event)
    ∷ []

subscription_run_in_order_example :
    (subscription_run service
      (with_rounds 64 some_steps)
      (started "usr_1" "q_2" submitted, past_state)).0.delivered
    ≡ (note_of submitted_event).event
      ∷ (note_of found_event).event
      ∷ (note_of booked_event).event
      ∷ []
unfolding list_quest_events is_terminal is_terminal_event sort_by insert_by
subscription_run_in_order_example =
    subscription_run_in_order service 64 some_steps "usr_1" "q_2" submitted past_state tt tt
      (omega arith) (omega arith) (omega arith)

subscription-FollowsQuest : FollowsQuest service (note_of found_event) subscription quests.quests
unfolding find_quest_of quest_columns
subscription-FollowsQuest = record {
  live = [];
  persists = refl;
  in_progress = refl;
  its_quest = refl;
  named = refl;
  there = refl;
}

notify_both_writes_twice_example :
    (notify_both service
      (note_of found_event)
      subscription
      subscription
      service_state).quest_db.quest_events
    ≡ event_row subscription (note_of found_event).event
      ∷ event_row subscription (note_of found_event).event
      ∷ []
notify_both_writes_twice_example =
    notify_both_writes_twice service (note_of found_event) subscription subscription service_state
      subscription-FollowsQuest subscription-FollowsQuest

-- The plan for the dinner that is made at an instant.
abbrev plan_at : Time → Plan Note
plan_at now = with_hash formats (
    assemble (plan_input service dinner_goal now resolved_venue)
      (continuous_release (end_of_day_in now plain_utc))
      (continuous_note dinner_date (end_of_day_in now plain_utc) ∷ [])
      (record { time = at_clock 19 0 0; table_type = "" } ∷ []))

abbrev approving_call : CreateCall
approving_call = record {
  user = "usr_1";
  goal = dinner_goal;
  opts = record { plan_hash = some (plan_at 90).hash; idempotency_key = none };
  minted = ok "q_9";
  now = 100;
  plan_now = 101;
}

dinner_goal-ShowsBookable : ShowsBookable service dinner_goal
unfolding plan_input calendar_shows_bookable
dinner_goal-ShowsBookable = λ now v h. refl

planned_90 : plan_outcome service dinner_goal 90 ≡ ok (plan_at 90)
unfolding plan_outcome validate build_plan select_strategy select_in expand_slots
    validate_venue_query trim_space today_start wall_time_after start_of_day_in
    calendar_shows_bookable cross enumerate_times minutes_of_day normalize_tables
planned_90 = refl

planned_101 : plan_outcome service dinner_goal 101 ≡ ok (plan_at 101)
unfolding plan_outcome validate build_plan select_strategy select_in expand_slots
    validate_venue_query trim_space today_start wall_time_after start_of_day_in
    calendar_shows_bookable cross enumerate_times minutes_of_day normalize_tables
planned_101 = refl

create_refuses_earlier_plan_example :
    ((create service approving_call service_state).0
      ≡ ("", some (hash_mismatch service approving_call (plan_at 101))))
    × (error_code_for (hash_mismatch service approving_call (plan_at 101)).kind
        ≡ "invalid_plan_hash")
    × CreateEnd service approving_call quests.quests world
        ("", some (hash_mismatch service approving_call (plan_at 101)))
        (create service approving_call service_state).1.quest_db.quests
        (create service approving_call service_state).1.engine
unfolding create_gate idempotency_gate
create_refuses_earlier_plan_example =
    create_refuses_earlier_plan service approving_call service_state 90 (plan_at 90) (plan_at 101)
      strokes-readable (λ h. h) dinner_goal-ShowsBookable refl refl planned_90 planned_101 refl
      (omega arith)

abbrev closed_input : Time → PlanInput
closed_input now = record {
  goal = dinner_goal;
  venue = resolved_venue;
  now = now;
  calendar_snapshot = record { venue = venue; days = [] };
  observed_release_avg = none;
  release_config = none;
  continuous_until = 0;
}

abbrev probe_start : Time
probe_start = probe_midnight dinner_goal plain_utc - probe_lead

abbrev waiting_plan : Time → Plan Note
waiting_plan now = with_hash formats (
    assemble (closed_input now) (discovered_release probe_start (probe_start + probe_width))
      (discovered_note venue probe_start (probe_start + probe_width) ∷ [])
      (record { time = at_clock 19 0 0; table_type = "" } ∷ []))

build_plan_hash_keeps_example : (waiting_plan 90).hash ≡ (waiting_plan 101).hash
unfolding build_plan select_strategy select_in select_unreleased expand_slots
    calendar_shows_bookable add_date start_of_day_in wall_time_after best_effort_discovered_probe
    cross as_ref enumerate_times minutes_of_day normalize_tables
build_plan_hash_keeps_example =
    build_plan_hash_keeps formats (closed_input 90) plain_utc 101 (waiting_plan 90)
      (waiting_plan 101) refl refl (omega arith) (omega arith) refl refl
