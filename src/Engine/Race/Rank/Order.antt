-- ===== src/Engine/Race/Rank/Order.antt =====
-- The order in which the booking race tries its slots.
use mathlib.Core.List.{Mem}
use mathlib.Core.List.Perm
use resy_snipe.Prelude.{
  ℕ, ◌≡◌, refl, List, [], ◌∷◌, All, ◌≤◌, arith, Bool-cases, ◌⊎◌, false, inl, suc, true, inr,
  str_eq_iff,
}
use resy_snipe.Prelude.Sorts.{sort_by-Perm, IsOrdered, of_key, sort_by-IsOrdered, of_key-sort_by}
use resy_snipe.Domain.Intent.{SlotPreference}
use resy_snipe.Providers.{Slot}
use resy_snipe.Engine.Race.Rank.{priority, rank_slots, prefers}

none_before : (slots : List Slot) → All (λ s. 0 ≤ priority [] s) slots
none_before [] = tt
none_before (s ∷ slots) = (omega arith, none_before slots)

-- Slots that no preference ranks are in order.
unranked-IsOrdered : (slots : List Slot) → IsOrdered (priority []) slots
unfolding priority
unranked-IsOrdered [] = tt
unranked-IsOrdered (s ∷ slots) = (none_before slots, unranked-IsOrdered slots)

-- The preference takes the slot: the same time, and any table or the slot's.
abbrev pub Meets : SlotPreference → Slot → Type 0
Meets p s =
    ((p.time.hour ≡ s.time.hour) × (p.time.min ≡ s.time.min) × (p.time.sec ≡ s.time.sec))
    × ((p.table_type ≡ "") ⊎ (p.table_type ≡ s.table_type))

-- The rank of a slot is the index of the first preference that takes it, or their number.
abbrev pub IsRank : List SlotPreference → Slot → ℕ → Type 0
IsRank [] s k = k ≡ 0
IsRank (p ∷ ps) s k =
    (Meets p s × (k ≡ 0)) ⊎ ((Meets p s → ⊥) × (j : ℕ) × (k ≡ suc j) × IsRank ps s j)

prefers-Meets : (p : SlotPreference) (s : Slot) → prefers p s ≡ true → Meets p s
prefers-Meets p s h =
    ground (arith, h, str_eq_iff p.table_type "", str_eq_iff p.table_type s.table_type)

not_prefers-Meets : (p : SlotPreference) (s : Slot) → prefers p s ≡ false → Meets p s → ⊥
not_prefers-Meets p s h m =
    ground (arith, h, m, str_eq_iff p.table_type "", str_eq_iff p.table_type s.table_type)

priority-IsRank : (prefs : List SlotPreference) (s : Slot) → IsRank prefs s (priority prefs s)
unfolding priority
priority-IsRank [] s = refl
priority-IsRank (p ∷ ps) s = elim (Bool-cases (prefers p s)) [
  | inl takes ↦ rw takes (inl (prefers-Meets p s takes, refl))
  | inr other ↦
      rw other (inr (not_prefers-Meets p s other, priority ps s, refl, priority-IsRank ps s))
]

-- The slots to try are in the order of their ranks, where the rank of a slot is the index of the
-- first preference of its time and of its table or any, and the number of preferences if none is;
-- and among the slots of one rank they are just the slots found, in the order found.
pub rank_slots-IsStable :
    (slots : List Slot) (prefs : List SlotPreference)
    → ((s : Slot) → IsRank prefs s (priority prefs s))
      × IsOrdered (priority prefs) (rank_slots slots prefs)
      × ((k : ℕ)
          → of_key (priority prefs) k (rank_slots slots prefs) ≡ of_key (priority prefs) k slots)
unfolding rank_slots
rank_slots-IsStable slots [] = (priority-IsRank [], unranked-IsOrdered slots, λ k. refl)
rank_slots-IsStable slots (p ∷ ps) = (
  priority-IsRank (p ∷ ps),
  sort_by-IsOrdered (priority (p ∷ ps)) slots,
  λ k. of_key-sort_by (priority (p ∷ ps)) k slots,
)

-- Ranking adds no slot.
pub mem-rank_slots :
    (s : Slot) (slots : List Slot) (prefs : List SlotPreference)
    → Mem s (rank_slots slots prefs)
    → Mem s slots
unfolding rank_slots
mem-rank_slots s slots [] m = m
mem-rank_slots s slots (p ∷ ps) m = (Perm.mem_iff (sort_by-Perm (priority (p ∷ ps)) slots)).0 m
