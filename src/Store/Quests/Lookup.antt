-- ===== src/Store/Quests/Lookup.antt =====
-- Reading the table of internal/store/quests.go by its key, before and after a write.
use mathlib.Core.Option.{some_inj, none-ne-some}
use resy_snipe.Domain.Dates.{Time}
use resy_snipe.Domain.Status.{Status}
use resy_snipe.Store.Quests.{
  find_quest, update_quests, QuestDbRow, find_quest_of, is_quest_of, set_status,
}
use resy_snipe.Prelude.{
  List, String, Option, some, ◌∷◌, ◌≡◌, Bool-cases, if◌then◌else◌, none, [], arith, str_eq, ◌++◌,
  inl, refl, str_eq_iff, inr, subst, ◌≢◌, sym, ◌∙◌,
}

-- The row, if it is the user's.
abbrev pub owned : String → Option QuestDbRow → Option QuestDbRow
owned user none = none
owned user (some r) = if str_eq r.user_id user then some r else none

-- No two rows have one id: the primary key.
abbrev pub IsKeyed : List QuestDbRow → Type 0
IsKeyed [] = Unit
IsKeyed (r ∷ rs) = (find_quest r.id rs ≡ none) × IsKeyed rs

find_quest_of-absent :
    (user id : String) (rows : List QuestDbRow)
    → find_quest id rows ≡ none
    → find_quest_of user id rows ≡ none
unfolding find_quest find_quest_of
find_quest_of-absent user id [] h = refl
find_quest_of-absent user id (r ∷ rs) h = ground (arith, find_quest_of-absent user id rs)

pub find_quest_of-keyed :
    (user id : String) (rows : List QuestDbRow)
    → IsKeyed rows
    → find_quest_of user id rows ≡ owned user (find_quest id rows)
unfolding find_quest find_quest_of
find_quest_of-keyed user id [] k = refl
find_quest_of-keyed user id (r ∷ rs) k = elim (Bool-cases (str_eq r.id id)) [
  | inl same ↦ elim (Bool-cases (str_eq r.user_id user)) [
    | inl mine ↦ simp (same, mine) refl
    | inr other ↦
        simp (same, other)
          (find_quest_of-absent user id rs
            (subst (λ t. find_quest t rs ≡ none) ((str_eq_iff r.id id).0 same) k.0))
  ]
  | inr differs ↦ simp differs (find_quest_of-keyed user id rs k.1)
]

update_quests-absent :
    (user id : String) (f : QuestDbRow → QuestDbRow) (rows : List QuestDbRow)
    → find_quest id rows ≡ none
    → update_quests (is_quest_of user id) f rows ≡ rows
unfolding find_quest update_quests
update_quests-absent user id f [] h = refl
update_quests-absent user id f (r ∷ rs) h = ground (arith, update_quests-absent user id f rs)

update_quests-absent_id :
    (user id j : String) (st : Status) (c : Option Time) (at : Time) (rows : List QuestDbRow)
    → find_quest j rows ≡ none
    → find_quest j (update_quests (is_quest_of user id) (set_status st c at) rows) ≡ none
unfolding find_quest update_quests
update_quests-absent_id user id j st c at [] h = refl
update_quests-absent_id user id j st c at (r ∷ rs) h =
    ground (arith, update_quests-absent_id user id j st c at rs)

pub update_quests-IsKeyed :
    (user id : String) (st : Status) (c : Option Time) (at : Time) (rows : List QuestDbRow)
    → IsKeyed rows
    → IsKeyed (update_quests (is_quest_of user id) (set_status st c at) rows)
unfolding update_quests
update_quests-IsKeyed user id st c at [] k = tt
update_quests-IsKeyed user id st c at (r ∷ rs) k = elim (Bool-cases (is_quest_of user id r)) [
  | inl hit ↦ rw hit (
    update_quests-absent_id user id r.id st c at rs k.0,
    update_quests-IsKeyed user id st c at rs k.1,
  )
  | inr miss ↦ rw miss (
    update_quests-absent_id user id r.id st c at rs k.0,
    update_quests-IsKeyed user id st c at rs k.1,
  )
]

pub find_quest-update :
    (user id j : String) (st : Status) (c : Option Time) (at : Time) (rows : List QuestDbRow)
    (r : QuestDbRow)
    → IsKeyed rows
    → find_quest_of user id rows ≡ some r
    → find_quest j (update_quests (is_quest_of user id) (set_status st c at) rows)
      ≡ (if str_eq j id then some (set_status st c at r) else find_quest j rows)
unfolding find_quest find_quest_of update_quests
find_quest-update user id j st c at [] r k h = cc
find_quest-update user id j st c at (x ∷ xs) r k h = elim (Bool-cases (is_quest_of user id x)) [
  | inl hit ↦
      let same : x.id ≡ id = ground (arith, hit, str_eq_iff x.id id) in
      let alone : find_quest id xs ≡ none = subst (λ t. find_quest t xs ≡ none) same k.0 in
      let found : x ≡ r = some_inj.0 (ground (arith, hit, h)) in
      simp (update_quests-absent user id (set_status st c at) xs alone, found)
        (ground (arith, str_eq_iff id j, str_eq_iff j id))
  | inr miss ↦
      let later : find_quest_of user id xs ≡ some r = ground (arith, miss, h) in
      let differs : x.id ≢ id = λ same. none-ne-some r (
        sym (find_quest_of-absent user id xs (subst (λ t. find_quest t xs ≡ none) same k.0))
        ∙ later) in
      simp (miss, find_quest-update user id j st c at xs r k.1 later)
        (ground (arith, differs, str_eq_iff x.id j, str_eq_iff j id))
]

pub find_quest-append :
    (j : String) (q : QuestDbRow) (rows : List QuestDbRow)
    → find_quest q.id rows ≡ none
    → find_quest j (rows ++ q ∷ []) ≡ (if str_eq j q.id then some q else find_quest j rows)
unfolding find_quest
find_quest-append j q [] h = ground (arith, str_eq_iff q.id j, str_eq_iff j q.id)
find_quest-append j q (r ∷ rs) h = ground (
  arith,
  find_quest-append j q rs,
  str_eq_iff q.id j,
  str_eq_iff j q.id,
  str_eq_iff r.id j,
  str_eq_iff r.id q.id,
)

pub append-IsKeyed :
    (q : QuestDbRow) (rows : List QuestDbRow)
    → find_quest q.id rows ≡ none
    → IsKeyed rows
    → IsKeyed (rows ++ q ∷ [])
unfolding find_quest
append-IsKeyed q [] h k = (refl, tt)
append-IsKeyed q (r ∷ rs) h k = (
  ground (arith, find_quest-append r.id q rs, str_eq_iff r.id q.id, str_eq_iff q.id r.id, h, k.0),
  append-IsKeyed q rs (ground (arith, h)) k.1,
)
