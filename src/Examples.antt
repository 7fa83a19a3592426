-- ===== src/Examples.antt =====
-- A snipe, its store and a provider, on which the theorems are tried.
use resy_snipe.Prelude.Results.{err, ok}
use resy_snipe.Domain.Status.{awaiting, submitted}
use resy_snipe.Store.Snipes.{Db, row_of}
use resy_snipe.Providers.{Confirmation, Slot, rate_limited, slot_taken}
use resy_snipe.Prelude.{ℕ, String, [], ◌*◌, ◌+◌, ◌∷◌, some, ◌/◌, ◌%◌, if◌then◌else◌, ◌==◌, none}
use resy_snipe.Domain.Intent.{Intent, VenueRef, discovered_release}
use resy_snipe.Domain.Snipe.{SnipeState}
use resy_snipe.Domain.Dates.{Date, Location, WallTime, pos, millisecond, second}
use resy_snipe.Engine.World.{Env, World, fired}
use mathlib.Core.Bool.{true, false}
mod Statuses
mod Plans
mod Stored
mod Quests
mod Services
mod Tokens
mod Engines
mod Races

-- A calendar in which every month has 31 days and every year 12 of them.
abbrev pub plain_utc : Location
plain_utc = record {
  tz_name = "UTC";
  moment = λ d w.
      (((d.year * 12 + d.month) * 31 + d.day) * 86400 + w.hour * 3600 + w.min * 60 + w.sec)
      * second;
  civil = λ t.
      let days = t / (86400 * second) in
      let secs = (t / second) % 86400 in
      (
        record { year = days / 31 / 12; month = (days / 31) % 12; day = days % 31 },
        record { hour = secs / 3600; min = (secs / 60) % 60; sec = secs % 60 },
      );
}

abbrev pub dinner_date : Date
dinner_date = record { year = 2026; month = 6; day = 15 }

abbrev pub at_clock : ℕ → ℕ → ℕ → WallTime
at_clock h m s = record { hour = h; min = m; sec = s }

abbrev pub venue : VenueRef
venue = record { provider = "resy"; ref = "5286" }

abbrev pub dinner : Intent
dinner = record {
  user = "usr_1";
  venue = venue;
  date = dinner_date;
  party_size = pos 2;
  slot_prefs = record { time = at_clock 19 0 0; table_type = "" } ∷ [];
  release = some (discovered_release 1000 5000);
}

abbrev pub snipe : SnipeState
snipe = record {
  id = "snp_1";
  intent = dinner;
  status = awaiting;
  scheduled_at = 40;
  result = none;
  events = [];
  created_at = 10;
  updated_at = 40;
}

abbrev pub other_snipe : SnipeState
other_snipe = record {
  id = "snp_2";
  intent = dinner;
  status = submitted;
  scheduled_at = 0;
  result = none;
  events = [];
  created_at = 20;
  updated_at = 20;
}

abbrev pub two_snipes : Db
two_snipes = record { snipes = row_of other_snipe ∷ row_of snipe ∷ []; events = []; observed = [] }

abbrev pub slot_of : ℕ → String → Slot
slot_of hour config = record {
  venue = venue;
  date = dinner_date;
  time = at_clock hour 0 0;
  table_type = "Dining Room";
  party_size = pos 2;
  payload = some (record {
    config_id = config;
    template_id = "";
    seating_type = "";
    book_token = "";
    payment_method_id = pos 0;
  });
}

abbrev pub receipt_number : Confirmation
receipt_number = record { id = "conf_1"; booked_at = 70; human_readable = "" }

-- A provider that offers two slots and books the second call, with a store that never fails.
abbrev pub env : Env
env = record {
  policy = record { max_concurrent = 1; poll_floor = 250 * millisecond; details_serial = true };
  has_provider = true;
  is_preparer = true;
  store_fails = λ n. false;
  lag = λ n. 1;
  canceled = λ n. false;
  calendar = λ n v d p. err rate_limited;
  find = λ n i ts. ok (slot_of 18 "a" ∷ slot_of 19 "b" ∷ []);
  prepare = λ n s. ok s;
  confirm = λ i s key. if i == 0 then err slot_taken else ok receipt_number;
  error_text = λ e. "error";
  decimal = λ n. "n";
  sha256_hex = λ s. s;
  timer = λ n. fired;
  venue_tz = λ v. none;
  utc = plain_utc;
  intent_hash = λ i. "hash";
}

abbrev pub world : World
world = record { now = 50; step = 0; db = two_snipes; live = snipe; sent = []; calls = [] }
