-- ===== src/Examples/Statuses.antt =====
-- Tests of internal/domain/status.go and goal.go.
use resy_snipe.Domain.Goal.Validation.{IsAcceptable, validate-IsAcceptable}
use resy_snipe.Domain.Status.Graph.{booked_visits}
use resy_snipe.Prelude.Results.{ok}
use mathlib.Core.List.{Memᴰ}
use resy_snipe.Examples.{at_clock, plain_utc, dinner_date}
use resy_snipe.Domain.Dates.{wall_time_after, second, pos}
use resy_snipe.Prelude.Texts.{Text, codes, text_eq, trim_space, to_lower}
use resy_snipe.Domain.Goal.{Goal, validate, validate_venue_query, today_start, url_query, earlier}
use resy_snipe.Prelude.{
  List, Option, some, if◌then◌else◌, ◌*◌, ◌≡◌, ◌∷◌, none, ◌↔◌, [], false, refl,
}
use resy_snipe.Domain.Status.{
  can_transition, Status, booked, awaiting, discovering, finding, booking,
}

abbrev history : List Status
history = discovering ∷ awaiting ∷ finding ∷ booking ∷ booked ∷ []

booked_visits_example : Memᴰ awaiting history × Memᴰ finding history × Memᴰ booking history
unfolding can_transition
booked_visits_example = booked_visits history (refl, (refl, (refl, (refl, (refl, tt))))) refl

-- A url.Parse that knows one URL.
hostname : Text → Option Text
hostname url = if text_eq url (codes "https://Resy.com/x") then some (codes "Resy.com") else none

abbrev goal : Goal
goal = record {
  venue_query = some (url_query (codes "https://Resy.com/x"));
  date = dinner_date;
  party = pos 2;
  time_prefs = record { start = at_clock 18 0 0; end = at_clock 21 0 0; priority = earlier };
  account_id = "acc_1";
  constraints = record { table_types = []; any_table = false };
}

validate-IsAcceptable_example :
    (validate hostname plain_utc goal (100 * second) ≡ ok tt)
    ↔ IsAcceptable hostname plain_utc goal (100 * second)
validate-IsAcceptable_example = validate-IsAcceptable hostname plain_utc goal (100 * second)

-- The example passes.
validate_test : validate hostname plain_utc goal (100 * second) ≡ ok tt
unfolding hostname validate validate_venue_query today_start wall_time_after trim_space to_lower
validate_test = refl
