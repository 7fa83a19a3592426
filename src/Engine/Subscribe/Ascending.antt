-- ===== src/Engine/Subscribe/Ascending.antt =====
-- sortUint64 of internal/engine/subscribe.go sorts.
use mathlib.Core.List.{reverse-cons}
use resy_snipe.Engine.Subscribe.{insert_down, sort_from, sort_uint64}
use resy_snipe.Prelude.{
  List, ℕ, All, reverse, ◌++◌, ◌∷◌, ◌≡◌, ◌≤◌, Bool-cases, [], arith, if◌then◌else◌, ◌+◌, All-append,
  All-reverse, ap, ltb, ◌==◌, inl, refl, inr,
}

-- How often a number stands in a list.
abbrev pub count : ℕ → List ℕ → ℕ
count k [] = 0
count k (x ∷ xs) = (if x == k then 1 else 0) + count k xs

count-append : (k : ℕ) (xs ys : List ℕ) → count k (xs ++ ys) ≡ count k xs + count k ys
count-append k [] ys = omega arith
count-append k (x ∷ xs) ys = omega (arith, count-append k xs ys)

count-reverse : (k : ℕ) (xs : List ℕ) → count k (reverse xs) ≡ count k xs
count-reverse k [] = refl
count-reverse k (x ∷ xs) = omega (
  arith,
  ap (count k) (reverse-cons x xs),
  count-append k (reverse xs) (x ∷ []),
  count-reverse k xs,
)

count-insert_down : (k v : ℕ) (xs : List ℕ) → count k (insert_down v xs) ≡ count k (v ∷ xs)
unfolding insert_down
count-insert_down k v [] = refl
count-insert_down k v (u ∷ xs) = elim (Bool-cases (ltb v u)) [
  | inl lt ↦ rw lt (omega (arith, count-insert_down k v xs))
  | inr ge ↦ rw ge refl
]

count-sort_from :
    (k : ℕ) (sorted xs : List ℕ) → count k (sort_from sorted xs) ≡ count k sorted + count k xs
unfolding sort_from
count-sort_from k sorted [] = omega (arith, count-reverse k sorted)
count-sort_from k sorted (x ∷ xs) =
    omega (arith, count-sort_from k (insert_down x sorted) xs, count-insert_down k x sorted)

-- The sorted part, the last first: no element is below a later one.
abbrev pub IsDescending : List ℕ → Type 0
IsDescending [] = Unit
IsDescending (x ∷ xs) = All (λ y. y ≤ x) xs × IsDescending xs

abbrev pub IsAscending : List ℕ → Type 0
IsAscending [] = Unit
IsAscending (x ∷ xs) = All (λ y. x ≤ y) xs × IsAscending xs

All-le_trans : (u v : ℕ) (xs : List ℕ) → u ≤ v → All (λ y. y ≤ u) xs → All (λ y. y ≤ v) xs
All-le_trans u v [] h a = tt
All-le_trans u v (x ∷ xs) h a = (omega (arith, h, a.0), All-le_trans u v xs h a.1)

All-insert_down :
    (u v : ℕ) (xs : List ℕ) → v ≤ u → All (λ y. y ≤ u) xs → All (λ y. y ≤ u) (insert_down v xs)
unfolding insert_down
All-insert_down u v [] h a = (h, tt)
All-insert_down u v (x ∷ xs) h a = elim (Bool-cases (ltb v x)) [
  | inl lt ↦ rw lt (a.0, All-insert_down u v xs h a.1)
  | inr ge ↦ rw ge (h, a)
]

insert_down-IsDescending : (v : ℕ) (xs : List ℕ) → IsDescending xs → IsDescending (insert_down v xs)
unfolding insert_down
insert_down-IsDescending v [] h = (tt, tt)
insert_down-IsDescending v (u ∷ xs) h = elim (Bool-cases (ltb v u)) [
  | inl lt ↦
      rw lt (All-insert_down u v xs (ground (arith, lt)) h.0, insert_down-IsDescending v xs h.1)
  | inr ge ↦ rw ge ((ground (arith, ge), All-le_trans u v xs (ground (arith, ge)) h.0), h)
]

append-IsAscending :
    (xs : List ℕ) (x : ℕ) → IsAscending xs → All (λ y. y ≤ x) xs → IsAscending (xs ++ x ∷ [])
append-IsAscending [] x h a = (tt, tt)
append-IsAscending (y ∷ xs) x h a =
    (All-append (λ z. y ≤ z) xs (x ∷ []) h.0 (a.0, tt), append-IsAscending xs x h.1 a.1)

reverse-IsAscending : (xs : List ℕ) → IsDescending xs → IsAscending (reverse xs)
reverse-IsAscending [] h = tt
reverse-IsAscending (x ∷ xs) h = rw (reverse-cons x xs) (
    append-IsAscending (reverse xs) x (reverse-IsAscending xs h.1)
      (All-reverse (λ y. y ≤ x) xs h.0))

sort_from-IsAscending :
    (sorted xs : List ℕ) → IsDescending sorted → IsAscending (sort_from sorted xs)
unfolding sort_from
sort_from-IsAscending sorted [] h = reverse-IsAscending sorted h
sort_from-IsAscending sorted (x ∷ xs) h =
    sort_from-IsAscending (insert_down x sorted) xs (insert_down-IsDescending x sorted h)

-- sortUint64 puts any list of ids, in whatever order a range over the map gave them, into ascending
-- order, with each id as often as it was there.
sort_uint64-IsAscending :
    (a : List ℕ) → IsAscending (sort_uint64 a) × ((k : ℕ) → count k (sort_uint64 a) ≡ count k a)
sort_uint64-IsAscending a =
    (sort_from-IsAscending [] a tt, λ k. omega (arith, count-sort_from k [] a))
