-- ===== src/Prelude/Sorts.antt =====
-- A stable insertion sort by a number, for the sort.SliceStable of the source.
use Prim.Native.Nat.{ℕ, ◌≤◌}
use mathlib.Core.Path.{◌≡◌, refl, ◌∙◌, ap}
use mathlib.Core.Logic.{inl, inr}
use mathlib.Core.List.Perm
use mathlib.Core.List.{List, [], ◌∷◌, Perm}
use mathlib.Core.Bool.{Bool, true, false}
use native.Mathlib.Omega.{arith}
use resy_snipe.Prelude.Lists.{All}
use resy_snipe.Prelude.Tests.{leb, ◌==◌, if◌then◌else◌, Bool-cases}

module _ {ℓ} {A : Type ℓ} (key : A → ℕ) where
  unfoldable pub insert_by : A → List A → List A
  insert_by a [] = a ∷ []
  insert_by a (b ∷ bs) =
      let rest = insert_by a bs in if leb (key a) (key b) then a ∷ b ∷ bs else b ∷ rest

  unfoldable pub sort_by : List A → List A
  sort_by [] = []
  sort_by (a ∷ xs) = insert_by a (sort_by xs)

  -- No element has a smaller key than one before it.
  abbrev pub IsOrdered : List A → Type 0
  IsOrdered [] = Unit
  IsOrdered (a ∷ xs) = All (λ b. key a ≤ key b) xs × IsOrdered xs

  -- The elements with the key `k`, in their order.
  unfoldable pub of_key : ℕ → List A → List A
  of_key k [] = []
  of_key k (a ∷ xs) = let rest = of_key k xs in if key a == k then a ∷ rest else rest

  All-insert_by {κ} :
      (P : A → Type κ) (a : A) (bs : List A) → P a → All P bs → All P (insert_by a bs)
  unfolding insert_by
  All-insert_by P a [] p h = (p, tt)
  All-insert_by P a (b ∷ bs) p h = elim (Bool-cases (leb (key a) (key b))) [
    | inl le ↦ rw le (p, h)
    | inr gt ↦ rw gt (h.0, All-insert_by P a bs p h.1)
  ]

  bounds_widen :
      (a b : A) (cs : List A)
      → key a ≤ key b
      → All (λ c. key b ≤ key c) cs
      → All (λ c. key a ≤ key c) cs
  bounds_widen a b [] le h = tt
  bounds_widen a b (c ∷ cs) le h = (omega (arith, le, h.0), bounds_widen a b cs le h.1)

  insert_by-IsOrdered : (a : A) (bs : List A) → IsOrdered bs → IsOrdered (insert_by a bs)
  unfolding insert_by
  insert_by-IsOrdered a [] h = (tt, tt)
  insert_by-IsOrdered a (b ∷ bs) h = elim (Bool-cases (leb (key a) (key b))) [
    | inl le ↦ rw le ((ground (arith, le), bounds_widen a b bs (ground (arith, le)) h.0), h)
    | inr gt ↦ rw gt (
      All-insert_by (λ c. key b ≤ key c) a bs (ground (arith, gt)) h.0,
      insert_by-IsOrdered a bs h.1,
    )
  ]

  pub sort_by-IsOrdered : (xs : List A) → IsOrdered (sort_by xs)
  unfolding sort_by
  sort_by-IsOrdered [] = tt
  sort_by-IsOrdered (a ∷ xs) = insert_by-IsOrdered a (sort_by xs) (sort_by-IsOrdered xs)

  of_key-insert_by : (k : ℕ) (a : A) (bs : List A) → of_key k (insert_by a bs) ≡ of_key k (a ∷ bs)
  unfolding insert_by of_key
  of_key-insert_by k a [] = refl
  of_key-insert_by k a (b ∷ bs) = ground (arith, of_key-insert_by k a bs)

  -- The sort is stable: it keeps the order of the elements with the same key.
  pub of_key-sort_by : (k : ℕ) (xs : List A) → of_key k (sort_by xs) ≡ of_key k xs
  unfolding sort_by of_key
  of_key-sort_by k [] = refl
  of_key-sort_by k (a ∷ xs) =
      of_key-insert_by k a (sort_by xs)
      ∙ ap (λ rest. if key a == k then a ∷ rest else rest) (of_key-sort_by k xs)

  pub All-sort_by {κ} : (P : A → Type κ) (xs : List A) → All P xs → All P (sort_by xs)
  unfolding sort_by
  All-sort_by P [] h = tt
  All-sort_by P (a ∷ xs) h = All-insert_by P a (sort_by xs) h.0 (All-sort_by P xs h.1)

  insert_by-Perm : (a : A) (bs : List A) → Perm (insert_by a bs) (a ∷ bs)
  unfolding insert_by
  insert_by-Perm a [] = Perm.refl (a ∷ [])
  insert_by-Perm a (b ∷ bs) = elim (Bool-cases (leb (key a) (key b))) [
    | inl le ↦ rw le (Perm.refl (a ∷ b ∷ bs))
    | inr gt ↦ rw gt (Perm.trans (Perm.cons b (insert_by-Perm a bs)) (Perm.swap a b bs))
  ]

  pub sort_by-Perm : (xs : List A) → Perm (sort_by xs) xs
  unfolding sort_by
  sort_by-Perm [] = Perm.refl []
  sort_by-Perm (a ∷ xs) = Perm.trans (insert_by-Perm a (sort_by xs)) (Perm.cons a (sort_by-Perm xs))

-- No element has a larger key than one before it.
abbrev pub IsDescending {ℓ} : {A : Type ℓ} → (A → ℕ) → List A → Type 0
IsDescending key [] = Unit
IsDescending key (a ∷ xs) = All (λ b. key b ≤ key a) xs × IsDescending key xs

-- A sort by a test that tells whether one element comes before another.
module _ {ℓ} {A : Type ℓ} (before : A → A → Bool) where
  unfoldable pub insert_with : A → List A → List A
  insert_with a [] = a ∷ []
  insert_with a (b ∷ bs) =
      let rest = insert_with a bs in if before a b then a ∷ b ∷ bs else b ∷ rest

  unfoldable pub sort_with : List A → List A
  unfolding insert_with
  sort_with [] = []
  sort_with (a ∷ xs) = insert_with a (sort_with xs)

  All-insert_with {κ} :
      (P : A → Type κ) (a : A) (bs : List A) → P a → All P bs → All P (insert_with a bs)
  unfolding insert_with
  All-insert_with P a [] p h = (p, tt)
  All-insert_with P a (b ∷ bs) p h = elim (Bool-cases (before a b)) [
    | inl le ↦ rw le (p, h)
    | inr gt ↦ rw gt (h.0, All-insert_with P a bs p h.1)
  ]

  pub All-sort_with {κ} : (P : A → Type κ) (xs : List A) → All P xs → All P (sort_with xs)
  unfolding sort_with
  All-sort_with P [] h = tt
  All-sort_with P (a ∷ xs) h = All-insert_with P a (sort_with xs) h.0 (All-sort_with P xs h.1)

  insert_with-Perm : (a : A) (bs : List A) → Perm (insert_with a bs) (a ∷ bs)
  unfolding insert_with
  insert_with-Perm a [] = Perm.refl (a ∷ [])
  insert_with-Perm a (b ∷ bs) = elim (Bool-cases (before a b)) [
    | inl le ↦ rw le (Perm.refl (a ∷ b ∷ bs))
    | inr gt ↦ rw gt (Perm.trans (Perm.cons b (insert_with-Perm a bs)) (Perm.swap a b bs))
  ]

  pub sort_with-Perm : (xs : List A) → Perm (sort_with xs) xs
  unfolding sort_with
  sort_with-Perm [] = Perm.refl []
  sort_with-Perm (a ∷ xs) =
      Perm.trans (insert_with-Perm a (sort_with xs)) (Perm.cons a (sort_with-Perm xs))

  -- When what comes before has no smaller key, the keys of the sorted list do not grow.
  module _ (key : A → ℕ) (first : (a b : A) → before a b ≡ true → key b ≤ key a)
      (second : (a b : A) → before a b ≡ false → key a ≤ key b) where
    bounds_lower :
        (a b : A) (cs : List A)
        → key b ≤ key a
        → All (λ c. key c ≤ key b) cs
        → All (λ c. key c ≤ key a) cs
    bounds_lower a b [] le h = tt
    bounds_lower a b (c ∷ cs) le h = (omega (arith, le, h.0), bounds_lower a b cs le h.1)

    insert_with-IsDescending :
        (a : A) (bs : List A) → IsDescending key bs → IsDescending key (insert_with a bs)
    unfolding insert_with
    insert_with-IsDescending a [] h = (tt, tt)
    insert_with-IsDescending a (b ∷ bs) h = elim (Bool-cases (before a b)) [
      | inl le ↦ rw le ((first a b le, bounds_lower a b bs (first a b le) h.0), h)
      | inr gt ↦ rw gt (
        All-insert_with (λ c. key c ≤ key b) a bs (second a b gt) h.0,
        insert_with-IsDescending a bs h.1,
      )
    ]

    pub sort_with-IsDescending : (xs : List A) → IsDescending key (sort_with xs)
    unfolding sort_with
    sort_with-IsDescending [] = tt
    sort_with-IsDescending (a ∷ xs) =
        insert_with-IsDescending a (sort_with xs) (sort_with-IsDescending xs)
