-- ===== src/Planner/Slots/Order.antt =====
-- The slots that ExpandSlots of internal/planner/slots.go lists, and their order.
use mathlib.Core.Option.{some-ne-none}
use native.Mathlib.Numerals.{add-one}
use mathlib.Core.List.{Mem, mem-reverse}
use resy_snipe.Prelude.Results.{ok}
use resy_snipe.Domain.Intent.{SlotPreference}
use resy_snipe.Domain.Goal.Validation.{IsWallTime}
use resy_snipe.Domain.Dates.{WallTime, wall_time_after}
use resy_snipe.Planner.Slots.Times.{
  progression, IsBetween, length-progression, progression-IsBetween, walk-progression, IsBefore,
  mem-progression_last,
}
use resy_snipe.Prelude.{
  ℕ, ◌-◌, ◌≤◌, ◌/◌, ◌≡◌, ◌+◌, ◌<◌, List, ◌*◌, All, String, arith, false, length, All-reverse,
  Bool-cases, length-reverse, ◌∷◌, All-append, [], length-append, ◌==◌, inl, length-map, refl, sym,
  inr, true, ◌%◌, subst, Bool, get_elem?, some, ◌++◌, ap, suc, zero, ◌∙◌,
}
use resy_snipe.Planner.Slots.{
  enumerate_times, minutes_of_day, order_by, slot_step, cross, expand_slots, with_tables,
  normalize_tables, slot_at, wall_time_from_minutes,
}
use resy_snipe.Domain.Goal.{TimeWindow, TimePriority, Constraints, later}

-- How many times a window of minutes holds.
abbrev pub rounds : ℕ → ℕ → ℕ
rounds start_min end_min = (end_min - start_min) / slot_step + 1

order_by_single :
    (p : TimePriority) (m sec : ℕ)
    → order_by p (progression m 1 sec) ≡ wall_time_from_minutes m sec ∷ []
unfolding progression
order_by_single later m sec = refl
order_by_single p m sec = refl

pub enumerate_times-progression :
    (w : TimeWindow)
    → minutes_of_day w.start ≤ minutes_of_day w.end
    → enumerate_times w
      ≡ order_by w.priority (
          progression
            (minutes_of_day w.start)
            (rounds (minutes_of_day w.start) (minutes_of_day w.end))
            w.start.sec)
unfolding enumerate_times
enumerate_times-progression w h =
    elim (Bool-cases (minutes_of_day w.start == minutes_of_day w.end)) [
      | inl same ↦
          let one : rounds (minutes_of_day w.start) (minutes_of_day w.end) ≡ 1 = ground arith in
          rw (same, one) (sym (order_by_single w.priority (minutes_of_day w.start) w.start.sec))
      | inr apart ↦ rw (apart, walk-progression _ _ _ _ _ (low h) (high h) fuel) refl
    ]
  where
    low :
        minutes_of_day w.start ≤ minutes_of_day w.end
        → minutes_of_day w.end
          < minutes_of_day w.start
            + slot_step * rounds (minutes_of_day w.start) (minutes_of_day w.end)
    low h' = omega arith

    high :
        minutes_of_day w.start ≤ minutes_of_day w.end
        → minutes_of_day w.start
            + slot_step * rounds (minutes_of_day w.start) (minutes_of_day w.end)
          ≤ minutes_of_day w.end + slot_step
    high h' = omega arith

    fuel :
        rounds (minutes_of_day w.start) (minutes_of_day w.end)
        ≤ minutes_of_day w.end + 1 - minutes_of_day w.start
    fuel = omega arith

All-order_by :
    (P : WallTime → Type 0) (p : TimePriority) (ts : List WallTime)
    → All P ts
    → All P (order_by p ts)
All-order_by P later ts h = All-reverse P ts h
All-order_by P p ts h = h

not_after-minutes :
    (a b : WallTime)
    → IsWallTime a
    → IsWallTime b
    → wall_time_after a b ≡ false
    → minutes_of_day a ≤ minutes_of_day b
unfolding wall_time_after minutes_of_day
not_after-minutes a b va vb h = ground arith

length-order_by : (p : TimePriority) (ts : List WallTime) → length (order_by p ts) ≡ length ts
length-order_by later ts = length-reverse ts
length-order_by p ts = refl

length-cross :
    (ts : List WallTime) (tables : List String)
    → length (cross ts tables) ≡ length ts * length tables
unfolding cross
length-cross [] tables = omega arith
length-cross (t ∷ ts) tables = omega (
  arith,
  length-append (with_tables t tables) (cross ts tables),
  length-map {0, 0} (slot_at t) tables,
  length-cross ts tables,
)

All-with_tables :
    (P : WallTime → Type 0) (t : WallTime) (tables : List String)
    → P t
    → All (λ s. P s.time) (with_tables t tables)
All-with_tables P t [] h = tt
All-with_tables P t (tbl ∷ tables) h = (h, All-with_tables P t tables h)

All-cross :
    (P : WallTime → Type 0) (ts : List WallTime) (tables : List String)
    → All P ts
    → All (λ s. P s.time) (cross ts tables)
unfolding cross
All-cross P [] tables h = tt
All-cross P (t ∷ ts) tables h =
    All-append (λ s. P s.time) (with_tables t tables) (cross ts tables)
      (All-with_tables P t tables h.0) (All-cross P ts tables h.1)

get-append_first :
    {A : Type 0} (xs ys : List A) (j : ℕ) {a : A}
    → get_elem? xs j ≡ some a
    → get_elem? (xs ++ ys) j ≡ some a
get-append_first [] ys j h = absurd (some-ne-none _ (sym h))
get-append_first (x ∷ xs) ys zero h = h
get-append_first (x ∷ xs) ys (suc j) h = get-append_first xs ys j h

get-append_later :
    {A : Type 0} (xs ys : List A) (k : ℕ) → get_elem? (xs ++ ys) (length xs + k) ≡ get_elem? ys k
get-append_later [] ys k = ap (get_elem? ys) (omega arith)
get-append_later (x ∷ xs) ys k =
    let shifted : suc (length xs) + k ≡ suc (length xs + k) = omega arith in
    ap (get_elem? (x ∷ (xs ++ ys))) shifted ∙ get-append_later xs ys k

get-with_tables :
    (t : WallTime) (tables : List String) (j : ℕ) {tbl : String}
    → get_elem? tables j ≡ some tbl
    → get_elem? (with_tables t tables) j ≡ some (record { time = t; table_type = tbl })
get-with_tables t [] j h = absurd (some-ne-none _ (sym h))
get-with_tables t (x ∷ tables) zero h = ap (mathlib.Core.Option.map (slot_at t)) h
get-with_tables t (x ∷ tables) (suc j) h = get-with_tables t tables j h

get-cross :
    (ts : List WallTime) (tables : List String) (i j : ℕ) (t : WallTime) (tbl : String)
    → get_elem? ts i ≡ some t
    → get_elem? tables j ≡ some tbl
    → get_elem? (cross ts tables) (i * length tables + j)
      ≡ some (record { time = t; table_type = tbl })
unfolding cross
get-cross [] tables i j t tbl ht hj = absurd (some-ne-none _ (sym ht))
get-cross (x ∷ ts) tables zero j t tbl ht hj =
    let start : zero * length tables + j ≡ j = omega arith in
    ap (get_elem? (with_tables x tables ++ cross ts tables)) start
    ∙ get-append_first (with_tables x tables) (cross ts tables) j (get-with_tables x tables j hj)
    ∙ ap (mathlib.Core.Option.map (λ u. slot_at u tbl)) ht
get-cross (x ∷ ts) tables (suc i) j t tbl ht hj =
    let block : length (with_tables x tables) ≡ length tables =
      length-map {0, 0} (slot_at x) tables in
    let shifted : suc i * length tables + j
        ≡ length (with_tables x tables) + (i * length tables + j) =
      omega (arith, block) in
    ap (get_elem? (with_tables x tables ++ cross ts tables)) shifted
    ∙ get-append_later (with_tables x tables) (cross ts tables) (i * length tables + j)
    ∙ get-cross ts tables i j t tbl ht hj

-- The tables to try for each time: those that are named, unless none is or any will do.
abbrev pub AreTables : List String → Bool → List String → Type 0
AreTables [] any tables = tables ≡ "" ∷ []
AreTables (t ∷ ts) true tables = tables ≡ "" ∷ []
AreTables (t ∷ ts) false tables = tables ≡ t ∷ ts

normalize_tables-AreTables :
    (c : Constraints) → AreTables c.table_types c.any_table (normalize_tables c)
unfolding normalize_tables
normalize_tables-AreTables c = go c.table_types c.any_table
  where
    go :
        (ts : List String) (any : Bool)
        → AreTables ts any (normalize_tables (record { table_types = ts; any_table = any }))
    go [] any = refl
    go (t ∷ ts) true = refl
    go (t ∷ ts) false = refl

-- The slots of a window of wall times that is not inverted: for each of the times, in their order,
-- one for each of the tables, in their order, and no others; all of them within the window's
-- minutes. The tables are those that are named, or one entry for any table.
pub expand_slots_bounds :
    (w : TimeWindow) (c : Constraints)
    → IsWallTime w.start
    → IsWallTime w.end
    → wall_time_after w.start w.end ≡ false
    → (slots : List SlotPreference) × (tables : List String) × (expand_slots w c ≡ ok slots)
      × AreTables c.table_types c.any_table tables
      × (length slots ≡ rounds (minutes_of_day w.start) (minutes_of_day w.end) * length tables)
      × ((i j : ℕ) (t : WallTime) (tbl : String)
          → get_elem? (enumerate_times w) i ≡ some t
          → get_elem? tables j ≡ some tbl
          → get_elem? slots (i * length tables + j) ≡ some (record { time = t; table_type = tbl }))
      × All (λ s. IsBetween (minutes_of_day w.start) (minutes_of_day w.end) s.time) slots
unfolding expand_slots
expand_slots_bounds w c vs ve h = (
  cross (enumerate_times w) (normalize_tables c),
  normalize_tables c,
  rw h,
  normalize_tables-AreTables c,
  rw (length-cross, e, length-order_by, length-progression),
  get-cross (enumerate_times w) (normalize_tables c),
  All-cross (IsBetween _ _) _ _ (
      rw e (
        All-order_by _ w.priority _
          (progression-IsBetween _ _ _ _ _ (omega arith) (omega (arith, ordered))))),
)
  where
    ordered : minutes_of_day w.start ≤ minutes_of_day w.end
    ordered = not_after-minutes w.start w.end vs ve h

    e :
        enumerate_times w
        ≡ order_by w.priority (
            progression
              (minutes_of_day w.start)
              (rounds (minutes_of_day w.start) (minutes_of_day w.end))
              w.start.sec)
    e = enumerate_times-progression w ordered

-- Which of two times comes first in the race.
abbrev pub ComesFirst : TimePriority → WallTime → WallTime → Type 0
ComesFirst later a b = IsBefore b a
ComesFirst _ a b = IsBefore a b

mem-order_by :
    (p : TimePriority) (t : WallTime) (ts : List WallTime) → Mem t ts → Mem t (order_by p ts)
mem-order_by later t ts h = mem-reverse.1 h
mem-order_by p t ts h = h

ends_later :
    (end : WallTime) (sec : ℕ)
    → IsWallTime end
    → end.sec < sec
    → wall_time_after (wall_time_from_minutes (minutes_of_day end) sec) end ≡ true
unfolding wall_time_after wall_time_from_minutes minutes_of_day
ends_later end sec v s = ground arith

-- The seconds of the start are carried to every time. So where the window's end lies a whole number
-- of steps after its start and has fewer seconds, a listed time lies after the window's end.
pub enumerate_times_overrun :
    (w : TimeWindow)
    → IsWallTime w.start
    → IsWallTime w.end
    → wall_time_after w.start w.end ≡ false
    → w.end.sec < w.start.sec
    → (minutes_of_day w.end - minutes_of_day w.start) % slot_step ≡ 0
    → (t : WallTime) × Mem t (enumerate_times w) × (wall_time_after t w.end ≡ true)
enumerate_times_overrun w vs ve h s whole = (
  wall_time_from_minutes (minutes_of_day w.end) w.start.sec,
  rw (enumerate_times-progression w ordered) (mem-order_by w.priority _ _ last_listed),
  after,
)
  where
    ordered : minutes_of_day w.start ≤ minutes_of_day w.end
    ordered = not_after-minutes w.start w.end vs ve h

    at_end :
        minutes_of_day w.start
          + slot_step * ((minutes_of_day w.end - minutes_of_day w.start) / slot_step)
        ≡ minutes_of_day w.end
    at_end = omega (arith, ordered)

    last_listed : Mem (wall_time_from_minutes (minutes_of_day w.end) w.start.sec) (
        progression
          (minutes_of_day w.start)
          (rounds (minutes_of_day w.start) (minutes_of_day w.end))
          w.start.sec)
    last_listed =
        subst
          (λ (m : ℕ). Mem (wall_time_from_minutes m w.start.sec) (
            progression (minutes_of_day w.start)
              (rounds (minutes_of_day w.start) (minutes_of_day w.end)) w.start.sec))
          at_end
          (rw add-one (
            mem-progression_last (minutes_of_day w.start)
              ((minutes_of_day w.end - minutes_of_day w.start) / slot_step) w.start.sec))

    after : wall_time_after (wall_time_from_minutes (minutes_of_day w.end) w.start.sec) w.end ≡ true
    after = ends_later w.end w.start.sec ve s
