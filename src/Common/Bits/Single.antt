-- ===== src/Common/Bits/Single.antt =====
-- One bit of a number, and masks of one bit.
use native.Mathlib.Nat.{pow-suc}
use Prim.Native.Nat.{ℕ, zero, suc, ◌+◌, ◌-◌, ◌*◌, ◌/◌, ◌%◌, ◌^◌, ◌<◌, min, max, bit_and, bit_or}
use mathlib.Core.Path.{◌≡◌, refl, ap, ◌∙◌}
use mathlib.Core.Logic.{◌≢◌}
use native.Mathlib.Omega.{arith}
use storage_prototype.Common.Bits.{bit_and_step, bit_or_step, bit_and-one}

unfoldable pub bit : ℕ → ℕ → ℕ
bit n zero = n % 2
bit n (suc i) = bit (n / 2) i

pub bit-lt : (n i : ℕ) → bit n i < 2
unfolding bit
bit-lt n zero = omega arith
bit-lt n (suc i) = bit-lt (n / 2) i

pub bit-bit_or : (a b i : ℕ) → bit (bit_or a b) i ≡ max (bit a i) (bit b i)
unfolding bit
bit-bit_or a b zero = omega (arith, bit_or_step a b)
bit-bit_or a b (suc i) =
    ap (λ (n : ℕ). bit n i) (omega (arith, bit_or_step a b)) ∙ bit-bit_or (a / 2) (b / 2) i

pub bit-bit_and : (a b i : ℕ) → bit (bit_and a b) i ≡ min (bit a i) (bit b i)
unfolding bit
bit-bit_and a b zero = omega (arith, bit_and_step a b)
bit-bit_and a b (suc i) =
    ap (λ (n : ℕ). bit n i) (omega (arith, bit_and_step a b)) ∙ bit-bit_and (a / 2) (b / 2) i

half : (a b : ℕ) → a ≡ 2 * b → a / 2 ≡ b
half a b h = omega arith

half_odd : (a b : ℕ) → a ≡ 2 * b + 1 → a / 2 ≡ b
half_odd a b h = omega arith

power_half : (k : ℕ) → 2 ^ suc k / 2 ≡ 2 ^ k
power_half k = omega (arith, pow-suc 2 k)

pub bit_and_power : (n i : ℕ) → bit_and n (2 ^ i) ≡ bit n i * 2 ^ i
unfolding bit
bit_and_power n zero = omega (arith, bit_and-one n)
bit_and_power n (suc i) =
    bit_and_step n (2 ^ suc i)
    ∙ omega (
      arith,
      pow-suc 2 i,
      ap (λ (m : ℕ). bit_and (n / 2) m) (power_half i),
      bit_and_power (n / 2) i,
      ap (λ (t : ℕ). bit (n / 2) i * t) (pow-suc 2 i),
    )

pub bit-power_self : (i : ℕ) → bit (2 ^ i) i ≡ 1
unfolding bit
bit-power_self zero = refl
bit-power_self (suc i) = ap (λ (n : ℕ). bit n i) (power_half i) ∙ bit-power_self i

pub bit-zero : (i : ℕ) → bit 0 i ≡ 0
unfolding bit
bit-zero zero = refl
bit-zero (suc i) = bit-zero i

pub bit-power_ne : (k i : ℕ) → k ≢ i → bit (2 ^ k) i ≡ 0
unfolding bit
bit-power_ne zero zero h = absurd (h refl)
bit-power_ne zero (suc i) h = bit-zero i
bit-power_ne (suc k) zero h = omega (arith, pow-suc 2 k)
bit-power_ne (suc k) (suc i) h =
    ap (λ (n : ℕ). bit n i) (power_half k) ∙ bit-power_ne k i (λ e. h (ap suc e))

pub power_positive : (k : ℕ) → 0 < 2 ^ k
power_positive zero = omega arith
power_positive (suc k) = omega (arith, pow-suc 2 k, power_positive k)

bit-ones : (w i : ℕ) → i < w → bit (2 ^ w - 1) i ≡ 1
unfolding bit
bit-ones zero i h = absurd (omega arith)
bit-ones (suc w) zero h = omega (arith, pow-suc 2 w, power_positive w)
bit-ones (suc w) (suc i) h =
    ap (λ (n : ℕ). bit n i) (half_odd _ (2 ^ w - 1) (omega (arith, pow-suc 2 w, power_positive w)))
    ∙ bit-ones w i (omega arith)

power_below : (k w : ℕ) → k < w → 2 ^ k < 2 ^ w
power_below k zero h = absurd (omega arith)
power_below zero (suc w) h = omega (arith, pow-suc 2 w, power_positive w)
power_below (suc k) (suc w) h =
    omega (arith, pow-suc 2 w, pow-suc 2 k, power_below k w (omega arith))

-- `~(1 << k)` on `w` bits.
pub bit-mask_self : (w k : ℕ) → k < w → bit (2 ^ w - 1 - 2 ^ k) k ≡ 0
unfolding bit
bit-mask_self zero k h = absurd (omega arith)
bit-mask_self (suc w) zero h = omega (arith, pow-suc 2 w, power_positive w)
bit-mask_self (suc w) (suc k) h =
    ap (λ (n : ℕ). bit n k)
      (half_odd _ (2 ^ w - 1 - 2 ^ k)
        (omega (arith, pow-suc 2 w, pow-suc 2 k, power_below k w (omega arith))))
    ∙ bit-mask_self w k (omega arith)

pub bit-mask_ne : (w k i : ℕ) → k < w → i < w → k ≢ i → bit (2 ^ w - 1 - 2 ^ k) i ≡ 1
unfolding bit
bit-mask_ne zero k i h h' ne = absurd (omega arith)
bit-mask_ne (suc w) zero zero h h' ne = absurd (ne refl)
bit-mask_ne (suc w) zero (suc i) h h' ne =
    ap (λ (n : ℕ). bit n i) (half _ (2 ^ w - 1) (omega (arith, pow-suc 2 w, power_positive w)))
    ∙ bit-ones w i (omega arith)
bit-mask_ne (suc w) (suc k) zero h h' ne =
    omega (arith, pow-suc 2 w, pow-suc 2 k, power_below k w (omega arith))
bit-mask_ne (suc w) (suc k) (suc i) h h' ne =
    ap (λ (n : ℕ). bit n i)
      (half_odd _ (2 ^ w - 1 - 2 ^ k)
        (omega (arith, pow-suc 2 w, pow-suc 2 k, power_below k w (omega arith))))
    ∙ bit-mask_ne w k i (omega arith) (omega arith) (λ e. ne (ap suc e))

pub bit_or-lt : (w a b : ℕ) → a < 2 ^ w → b < 2 ^ w → bit_or a b < 2 ^ w
bit_or-lt zero zero zero p q = omega arith
bit_or-lt zero (suc a) b p q = absurd (omega arith)
bit_or-lt zero zero (suc b) p q = absurd (omega arith)
bit_or-lt (suc w) a b p q = omega (
  arith,
  pow-suc 2 w,
  bit_or_step a b,
  bit_or-lt w (a / 2) (b / 2) (omega (arith, pow-suc 2 w)) (omega (arith, pow-suc 2 w)),
)

pub bit_and-lt : (w a b : ℕ) → a < 2 ^ w → b < 2 ^ w → bit_and a b < 2 ^ w
bit_and-lt zero zero zero p q = omega arith
bit_and-lt zero (suc a) b p q = absurd (omega arith)
bit_and-lt zero zero (suc b) p q = absurd (omega arith)
bit_and-lt (suc w) a b p q = omega (
  arith,
  pow-suc 2 w,
  bit_and_step a b,
  bit_and-lt w (a / 2) (b / 2) (omega (arith, pow-suc 2 w)) (omega (arith, pow-suc 2 w)),
)

pub power-lt : (k w : ℕ) → k < w → 2 ^ k < 2 ^ w
power-lt k w h = power_below k w h
