-- ===== src/Prelude/Sorting.antt =====
-- sort.Slice by a number: an insertion sort, which keeps the order of equal ones.
use Prim.Native.Nat.{ℕ, suc, ◌≤◌}
use mathlib.Core.Path.{◌≡◌, refl, ◌∙◌}
use mathlib.Core.Logic.{inl, inr}
use mathlib.Core.Option.{Option, none, some}
use mathlib.Core.List.{List, [], ◌∷◌}
use native.Mathlib.Omega.{arith}
use mpfpv.Prelude.Tests.{leb, ◌==◌, if◌then◌else◌, Bool-cases}
use mpfpv.Prelude.Lists.{length}

module _ {ℓ} {A : Type ℓ} (key : A → ℕ) where
  unfoldable pub insert_by : A → List A → List A
  insert_by x [] = x ∷ []
  insert_by x (y ∷ ys) =
      let rest = insert_by x ys in if leb (key x) (key y) then x ∷ y ∷ ys else y ∷ rest

  unfoldable pub sort_by : List A → List A
  unfolding insert_by
  sort_by [] = []
  sort_by (x ∷ xs) = insert_by x (sort_by xs)

  -- The first element with a key.
  unfoldable pub find_by : ℕ → List A → Option A
  find_by k [] = none
  find_by k (x ∷ xs) = if key x == k then some x else find_by k xs

  abbrev pub AreFrom : ℕ → List A → Type 0
  AreFrom k [] = Unit
  AreFrom k (x ∷ xs) = (k ≤ key x) × AreFrom k xs

  abbrev pub IsSortedBy : List A → Type 0
  IsSortedBy [] = Unit
  IsSortedBy (x ∷ xs) = AreFrom (key x) xs × IsSortedBy xs

  AreFrom-trans : (k m : ℕ) (xs : List A) → k ≤ m → AreFrom m xs → AreFrom k xs
  AreFrom-trans k m [] le h = tt
  AreFrom-trans k m (x ∷ xs) le (h, hs) = (omega arith, AreFrom-trans k m xs le hs)

  insert_by-AreFrom :
      (k : ℕ) (x : A) (xs : List A) → k ≤ key x → AreFrom k xs → AreFrom k (insert_by x xs)
  unfolding insert_by
  insert_by-AreFrom k x [] le h = (le, tt)
  insert_by-AreFrom k x (y ∷ ys) le (h, hs) = elim (Bool-cases (leb (key x) (key y))) [
    | inl before ↦ rw before (le, (h, hs))
    | inr after ↦ rw after (h, insert_by-AreFrom k x ys le hs)
  ]

  insert_by-IsSortedBy : (x : A) (xs : List A) → IsSortedBy xs → IsSortedBy (insert_by x xs)
  unfolding insert_by
  insert_by-IsSortedBy x [] h = (tt, tt)
  insert_by-IsSortedBy x (y ∷ ys) (h, hs) = elim (Bool-cases (leb (key x) (key y))) [
    | inl before ↦ rw before (
      (ground (arith, before), AreFrom-trans (key x) (key y) ys (ground (arith, before)) h),
      (h, hs),
    )
    | inr after ↦
        rw after
          (insert_by-AreFrom (key y) x ys (ground (arith, after)) h, insert_by-IsSortedBy x ys hs)
  ]

  pub sort_by-IsSortedBy : (xs : List A) → IsSortedBy (sort_by xs)
  unfolding sort_by
  sort_by-IsSortedBy [] = tt
  sort_by-IsSortedBy (x ∷ xs) = insert_by-IsSortedBy x (sort_by xs) (sort_by-IsSortedBy xs)

  find_by-insert_by :
      (k : ℕ) (x : A) (xs : List A)
      → find_by k (insert_by x xs) ≡ (if key x == k then some x else find_by k xs)
  unfolding find_by insert_by
  find_by-insert_by k x [] = refl
  find_by-insert_by k x (y ∷ ys) = ground (arith, find_by-insert_by k x ys)

  pub find_by-sort_by : (k : ℕ) (xs : List A) → find_by k (sort_by xs) ≡ find_by k xs
  unfolding sort_by find_by
  find_by-sort_by k [] = refl
  find_by-sort_by k (x ∷ xs) =
      find_by-insert_by k x (sort_by xs)
      ∙ (λ i. if key x == k then some x else find_by-sort_by k xs i)

  length-insert_by : (x : A) (xs : List A) → length (insert_by x xs) ≡ suc (length xs)
  unfolding insert_by
  length-insert_by x [] = refl
  length-insert_by x (y ∷ ys) = ground (arith, length-insert_by x ys)

  pub length-sort_by : (xs : List A) → length (sort_by xs) ≡ length xs
  unfolding sort_by
  length-sort_by [] = refl
  length-sort_by (x ∷ xs) = omega (arith, length-insert_by x (sort_by xs), length-sort_by xs)
