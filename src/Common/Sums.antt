-- ===== src/Common/Sums.antt =====
-- Sums over a list of a weight of its elements.
use Prim.Native.Nat.{ℕ, zero, suc, ◌+◌, ◌≤◌}
use mathlib.Core.Path.{◌≡◌}
use mathlib.Core.List.{List, [], ◌∷◌, ◌++◌}
use mathlib.Core.Option.{some}
use native.Mathlib.Omega.{arith}
use gargantua.Common.Lists.{get_elem?, set}

module _ {ℓ} {A : Type ℓ} (weight : A → ℕ) where
  unfoldable pub total : List A → ℕ
  total [] = 0
  total (x ∷ xs) = weight x + total xs

module _ {ℓ} {A : Type ℓ} where
  pub total-append :
      (weight : A → ℕ) (xs ys : List A)
      → total weight (xs ++ ys) ≡ total weight xs + total weight ys
  unfolding total
  total-append weight [] ys = omega arith
  total-append weight (x ∷ xs) ys = omega (arith, total-append weight xs ys)

  -- What is written at an index takes the place of what was there.
  pub total-set :
      (weight : A → ℕ) (xs : List A) (i : ℕ) (x y : A)
      → get_elem? xs i ≡ some x
      → total weight (set xs i y) + weight x ≡ total weight xs + weight y
  unfolding total
  total-set weight [] i x y h = absurd cc
  total-set weight (z ∷ xs) zero x y h = let e : z ≡ x = cc in rw e (omega arith)
  total-set weight (z ∷ xs) (suc i) x y h =
      let ih = total-set weight xs i x y h in omega (arith, ih)

  pub weight≤total :
      (weight : A → ℕ) (xs : List A) (i : ℕ) (x : A)
      → get_elem? xs i ≡ some x
      → weight x ≤ total weight xs
  unfolding total
  weight≤total weight [] i x h = absurd cc
  weight≤total weight (z ∷ xs) zero x h = let e : z ≡ x = cc in rw e (omega arith)
  weight≤total weight (z ∷ xs) (suc i) x h =
      let ih = weight≤total weight xs i x h in omega (arith, ih)
