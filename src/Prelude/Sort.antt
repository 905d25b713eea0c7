-- ===== src/Prelude/Sort.antt =====
-- Python's `sorted`, which keeps the order of equal keys, slices from the end, and sums over lists.
use Prim.Native.Nat.{ℕ, zero, suc, ◌+◌, ◌-◌, ◌≤◌}
use mathlib.Core.Path.{◌≡◌, refl}
use mathlib.Core.Bool.{Bool, true, false}
use mathlib.Core.List.{List, [], ◌∷◌, ◌++◌}
use native.Mathlib.Omega.{arith}
use toss_invest_ai.Prelude.Tests.{if◌then◌else◌}
use toss_invest_ai.Prelude.Lists.{length, All}

module _ {ℓ} {A : Type ℓ} where
  -- The element goes before those that `before` does not place in front of it.
  unfoldable pub insert_sorted : (A → A → Bool) → A → List A → List A
  insert_sorted before x [] = x ∷ []
  insert_sorted before x (y ∷ ys) = if before y x then y ∷ insert_sorted before x ys else x ∷ y ∷ ys

  unfoldable pub sort_by : (A → A → Bool) → List A → List A
  sort_by before [] = []
  sort_by before (x ∷ xs) = insert_sorted before x (sort_by before xs)

  -- `xs[:n]`
  unfoldable pub take : ℕ → List A → List A
  take zero xs = []
  take (suc n) [] = []
  take (suc n) (x ∷ xs) = x ∷ take n xs

  unfoldable pub drop : ℕ → List A → List A
  drop zero xs = xs
  drop (suc n) [] = []
  drop (suc n) (x ∷ xs) = drop n xs

  -- `xs[-n:]`
  abbrev pub take_last : ℕ → List A → List A
  take_last n xs = drop (length xs - n) xs

  unfoldable pub reverse_onto : List A → List A → List A
  reverse_onto [] ys = ys
  reverse_onto (x ∷ xs) ys = reverse_onto xs (x ∷ ys)

  abbrev pub reversed : List A → List A
  reversed xs = reverse_onto xs []

  unfoldable pub sum_by : (A → ℕ) → List A → ℕ
  sum_by f [] = 0
  sum_by f (x ∷ xs) = f x + sum_by f xs

  pub sum_by-append : (f : A → ℕ) (xs ys : List A) → sum_by f (xs ++ ys) ≡ sum_by f xs + sum_by f ys
  unfolding sum_by
  sum_by-append f [] ys = omega arith
  sum_by-append f (x ∷ xs) ys = omega (arith, sum_by-append f xs ys)

  sum_by-insert_sorted :
      (f : A → ℕ) (before : A → A → Bool) (x : A) (xs : List A)
      → sum_by f (insert_sorted before x xs) ≡ f x + sum_by f xs
  unfolding sum_by insert_sorted
  sum_by-insert_sorted f before x [] = refl
  sum_by-insert_sorted f before x (y ∷ ys) = ground (arith, sum_by-insert_sorted f before x ys)

  pub sum_by-sort_by :
      (f : A → ℕ) (before : A → A → Bool) (xs : List A) → sum_by f (sort_by before xs) ≡ sum_by f xs
  unfolding sum_by sort_by
  sum_by-sort_by f before [] = refl
  sum_by-sort_by f before (x ∷ xs) =
      omega (arith, sum_by-insert_sorted f before x (sort_by before xs), sum_by-sort_by f before xs)

  pub insert_sorted-All :
      (P : A → Type 0) (before : A → A → Bool) (x : A) (xs : List A)
      → P x
      → All P xs
      → All P (insert_sorted before x xs)
  unfolding insert_sorted
  insert_sorted-All P before x [] p ps = (p, tt)
  insert_sorted-All P before x (y ∷ ys) p (q, qs) =
      elim (before y x) as (λ b. All P (if b then y ∷ insert_sorted before x ys else x ∷ y ∷ ys)) [
        | true ↦ (q, insert_sorted-All P before x ys p qs)
        | false ↦ (p, (q, qs))
      ]

  pub sort_by-All :
      (P : A → Type 0) (before : A → A → Bool) (xs : List A) → All P xs → All P (sort_by before xs)
  unfolding sort_by
  sort_by-All P before [] tt = tt
  sort_by-All P before (x ∷ xs) (p, ps) =
      insert_sorted-All P before x (sort_by before xs) p (sort_by-All P before xs ps)

  pub take-All : (P : A → Type 0) (n : ℕ) (xs : List A) → All P xs → All P (take n xs)
  unfolding take
  take-All P zero xs ps = tt
  take-All P (suc n) [] tt = tt
  take-All P (suc n) (x ∷ xs) (p, ps) = (p, take-All P n xs ps)

  pub length-take : (n : ℕ) (xs : List A) → length (take n xs) ≤ n
  unfolding take
  length-take zero xs = omega arith
  length-take (suc n) [] = omega arith
  length-take (suc n) (x ∷ xs) = omega (arith, length-take n xs)

  pub length-drop : (n : ℕ) (xs : List A) → length (drop n xs) ≡ length xs - n
  unfolding drop
  length-drop zero xs = omega arith
  length-drop (suc n) [] = omega arith
  length-drop (suc n) (x ∷ xs) = omega (arith, length-drop n xs)

  pub drop-All : (P : A → Type 0) (n : ℕ) (xs : List A) → All P xs → All P (drop n xs)
  unfolding drop
  drop-All P zero xs ps = ps
  drop-All P (suc n) [] tt = tt
  drop-All P (suc n) (x ∷ xs) (p, ps) = drop-All P n xs ps

  length-insert_sorted :
      (before : A → A → Bool) (x : A) (xs : List A)
      → length (insert_sorted before x xs) ≡ suc (length xs)
  unfolding insert_sorted
  length-insert_sorted before x [] = refl
  length-insert_sorted before x (y ∷ ys) = ground (arith, length-insert_sorted before x ys)

  pub length-sort_by :
      (before : A → A → Bool) (xs : List A) → length (sort_by before xs) ≡ length xs
  unfolding sort_by
  length-sort_by before [] = refl
  length-sort_by before (x ∷ xs) =
      omega (arith, length-insert_sorted before x (sort_by before xs), length-sort_by before xs)
