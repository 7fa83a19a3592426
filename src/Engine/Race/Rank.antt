-- ===== src/Engine/Race/Rank.antt =====
-- rankSlotsByPreference and slotPrefTimes of internal/engine/race.go.
use resy_snipe.Prelude.{ℕ, suc, List, [], ◌∷◌, str_eq, ◌||◌, ◌&&◌, if◌then◌else◌, Bool, false}
use resy_snipe.Prelude.Sorts.{sort_by}
use resy_snipe.Domain.Dates.{wall_eq, WallTime}
use resy_snipe.Domain.Intent.{SlotPreference}
use resy_snipe.Providers.{Slot}
pub mod Order

-- A preference without a table type takes any table.
abbrev pub prefers : SlotPreference → Slot → Bool
prefers p s = wall_eq p.time s.time && (str_eq p.table_type "" || str_eq p.table_type s.table_type)

-- The index of the first preference that takes the slot; the number of preferences if none does.
unfoldable pub priority : List SlotPreference → Slot → ℕ
priority [] s = 0
priority (p ∷ ps) s = let later = suc (priority ps s) in if prefers p s then 0 else later

unfoldable pub rank_slots : List Slot → List SlotPreference → List Slot
rank_slots slots [] = slots
rank_slots slots (p ∷ ps) = sort_by (priority (p ∷ ps)) slots

-- The map `seen` is the list of the times kept so far.
abbrev pub is_seen : WallTime → List WallTime → Bool
is_seen t [] = false
is_seen t (u ∷ us) = wall_eq u t || is_seen t us

-- slotPrefTimes: each preferred time once, in the order in which it first occurs.
unfoldable pub slot_pref_times : List SlotPreference → List WallTime → List WallTime
slot_pref_times [] seen = []
slot_pref_times (p ∷ ps) seen =
    let dup = slot_pref_times ps seen in
    let fresh = p.time ∷ slot_pref_times ps (p.time ∷ seen) in
    if is_seen p.time seen then dup else fresh
