-- ===== src/Engine/Subscribe.antt =====
-- internal/engine/subscribe.go: the registry of subscribers, and the order of delivery.
use resy_snipe.Prelude.{
  List, if◌then◌else◌, ℕ, ◌+◌, Bool, Option, [], map, reverse, true, ◌%◌, ◌∷◌, ltb, none, ◌==◌, ◌^◌,
  false, some,
}
pub mod Delivery
pub mod Ascending

-- The registered callbacks by id; `S` is the type of a callback. The order of the list is that in
-- which a range over the map visits it; the newest entry is put first.
pub record Registry (S : Type 0) : Type 0 where
  pub next_sub_id : ℕ
  pub subs : List (ℕ × S)

-- What Subscribe returns to cancel with; `used` is its sync.Once.
pub record Handle : Type 0 where
  pub id : ℕ
  pub used : Bool

module _ {S : Type 0} where
  -- delete(e.subs, id).
  unfoldable pub remove : ℕ → List (ℕ × S) → List (ℕ × S)
  remove id [] = []
  remove id (s ∷ subs) = let rest = remove id subs in if s.0 == id then rest else s ∷ rest

  -- A look-up in the map.
  unfoldable pub lookup : ℕ → List (ℕ × S) → Option S
  lookup id [] = none
  lookup id (s ∷ subs) = if s.0 == id then some s.1 else lookup id subs

  -- Engine.Subscribe; the counter is a uint64, and a write to the map replaces the entry.
  unfoldable pub subscribe : S → Registry S → Registry S × Handle
  subscribe fn r = (
    record {
      next_sub_id = (r.next_sub_id + 1) % 2 ^ 64;
      subs = (r.next_sub_id, fn) ∷ remove r.next_sub_id r.subs;
    },
    record { id = r.next_sub_id; used = false },
  )

  -- The cancel function.
  unfoldable pub cancel : Handle → Registry S → Registry S × Handle
  cancel h r =
      if h.used then (r, h) else (record r { subs = remove h.id r.subs }, record h { used = true })

-- The inner loop of sortUint64: `sorted` is the part before the element, the last first.
unfoldable pub insert_down : ℕ → List ℕ → List ℕ
insert_down v [] = v ∷ []
insert_down v (u ∷ sorted) =
    let rest = insert_down v sorted in if ltb v u then u ∷ rest else v ∷ u ∷ sorted

unfoldable pub sort_from : List ℕ → List ℕ → List ℕ
sort_from sorted [] = reverse sorted
sort_from sorted (v ∷ rest) = sort_from (insert_down v sorted) rest

-- sortUint64.
abbrev pub sort_uint64 : List ℕ → List ℕ
sort_uint64 a = sort_from [] a

module _ {S : Type 0} where
  -- The callbacks of the ids, in order.
  unfoldable pub callbacks : List ℕ → List (ℕ × S) → List (Option S)
  callbacks ids subs = map (λ id. lookup id subs) ids

  -- The ids that Engine.emit calls, in order.
  abbrev pub emit_ids : Registry S → List ℕ
  emit_ids r = sort_uint64 (map (λ s. s.0) r.subs)

  -- Engine.emit: whom it calls, in order.
  unfoldable pub emit_to : Registry S → List (Option S)
  emit_to r = callbacks (emit_ids r) r.subs
