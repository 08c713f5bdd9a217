-- ===== src/Common/Sums.antt =====
-- Sums and universal statements over the indices below a bound.
use Prim.Native.Nat.{ℕ, zero, suc, ◌+◌, ◌≤◌, ◌<◌}
use mathlib.Core.Path.{◌≡◌, refl}
use mathlib.Core.Logic.{◌≢◌, inl, inr}
use native.Mathlib.Omega.{arith}
use storage_prototype.Common.Order.{eq-or-ne}

-- f 0 + f 1 + … + f (n - 1)
unfoldable pub sum_below : ℕ → (ℕ → ℕ) → ℕ
sum_below zero f = 0
sum_below (suc n) f = sum_below n f + f n

pub sum_below_congr :
    (n : ℕ) (f g : ℕ → ℕ) → ((i : ℕ) → i < n → f i ≡ g i) → sum_below n f ≡ sum_below n g
unfolding sum_below
sum_below_congr zero f g h = refl
sum_below_congr (suc n) f g h =
    omega (arith, sum_below_congr n f g (λ i p. h i (omega arith)), h n (omega arith))

-- Changing one summand.
pub sum_below_update :
    (n k : ℕ) (f g : ℕ → ℕ)
    → k < n
    → ((i : ℕ) → i < n → i ≢ k → g i ≡ f i)
    → sum_below n g + f k ≡ sum_below n f + g k
unfolding sum_below
sum_below_update zero k f g below same = absurd (omega arith)
sum_below_update (suc n) k f g below same = elim (eq-or-ne n k) [
  | inl e ↦
      rw (← e) (omega (arith, sum_below_congr n g f (λ i p. same i (omega arith) (omega arith))))
  | inr ne ↦ omega (
    arith,
    same n (omega arith) ne,
    sum_below_update n k f g (omega arith) (λ i p. same i (omega arith)),
  )
]

pub sum_below-zero : (n : ℕ) (f : ℕ → ℕ) → ((i : ℕ) → i < n → f i ≡ 0) → sum_below n f ≡ 0
unfolding sum_below
sum_below-zero zero f h = refl
sum_below-zero (suc n) f h =
    omega (arith, sum_below-zero n f (λ i p. h i (omega arith)), h n (omega arith))

pub le-sum_below : (n k : ℕ) (f : ℕ → ℕ) → k < n → f k ≤ sum_below n f
unfolding sum_below
le-sum_below zero k f below = absurd (omega arith)
le-sum_below (suc n) k f below = elim (eq-or-ne n k) [
  | inl e ↦ rw (← e) (omega arith)
  | inr ne ↦ omega (arith, le-sum_below n k f (omega arith))
]
