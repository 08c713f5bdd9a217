-- ===== src/Common/Bits.antt =====
-- Laws of `bit_and`, `bit_or` and `bit_xor` at variables, from the equation for the lowest digit.
pub mod Xor
pub mod Fields
pub mod Single
use Prim.Native.Nat.{
  ℕ, zero, suc, ◌+◌, ◌-◌, ◌*◌, ◌/◌, ◌%◌, ◌^◌, ◌≤◌, ◌<◌, min, max, digits, bitwise, bit_and, bit_or,
  bit_xor, differ, bit_and-bitwise, bit_or-bitwise, bit_xor-bitwise,
}
use mathlib.Core.Path.{◌≡◌, refl, ap, ◌∙◌}
use native.Mathlib.Nat.{zero-add, suc-add, pow-suc}
use native.Mathlib.Omega.{arith}

-- `digits` counts its fuel down to zero; a unit to spare changes nothing.
module _ (below : ℕ → ℕ) (op : ℕ → ℕ → ℕ) where
  one_more : (fuel a b : ℕ) → a ≤ fuel → digits below op (suc fuel) a b ≡ digits below op fuel a b
  one_more zero zero b h = refl
  one_more (suc fuel) zero b h = refl
  one_more zero (suc a) b h = absurd (omega arith)
  one_more (suc fuel) (suc a) b h =
      ap (λ (r : ℕ). r * 2 + op (suc a % 2) (b % 2))
        (one_more fuel (suc a / 2) (b / 2) (omega arith))

  surplus :
      (extra fuel a b : ℕ)
      → a ≤ fuel
      → digits below op (extra + fuel) a b ≡ digits below op fuel a b
  surplus zero fuel a b h = ap (λ (n : ℕ). digits below op n a b) (zero-add fuel)
  surplus (suc extra) fuel a b h =
      ap (λ (n : ℕ). digits below op n a b) (suc-add extra fuel)
      ∙ one_more (extra + fuel) a b (omega arith)
      ∙ surplus extra fuel a b h

  lowest_digit :
      ((b : ℕ) → below b ≡ below (b / 2) * 2 + op 0 (b % 2))
      → (a b : ℕ) → bitwise below op a b ≡ bitwise below op (a / 2) (b / 2) * 2 + op (a % 2) (b % 2)
  lowest_digit ends zero b = ends b
  lowest_digit ends (suc a) b =
      ap (λ (r : ℕ). r * 2 + op (suc a % 2) (b % 2))
        (ap (λ (n : ℕ). digits below op n (suc a / 2) (b / 2)) split
          ∙ surplus (a - suc a / 2) (suc a / 2) (suc a / 2) (b / 2) (omega arith))
    where
      split : a ≡ a - suc a / 2 + suc a / 2
      split = omega arith

differ-mod : (x y : ℕ) → x < 2 → y < 2 → differ x y ≡ (x + y) % 2
differ-mod zero zero p q = refl
differ-mod zero (suc zero) p q = refl
differ-mod (suc zero) zero p q = refl
differ-mod (suc zero) (suc zero) p q = refl
differ-mod zero (suc (suc y)) p q = absurd (omega arith)
differ-mod (suc zero) (suc (suc y)) p q = absurd (omega arith)
differ-mod (suc (suc x)) y p q = absurd (omega arith)

pub bit_xor_step : (a b : ℕ) → bit_xor a b ≡ bit_xor (a / 2) (b / 2) * 2 + (a + b) % 2
bit_xor_step a b = omega (
  arith,
  bit_xor-bitwise a b,
  bit_xor-bitwise (a / 2) (b / 2),
  lowest_digit (λ y. y) differ (λ y. omega arith) a b,
  differ-mod (a % 2) (b % 2) (omega arith) (omega arith),
)

pub bit_or_step : (a b : ℕ) → bit_or a b ≡ bit_or (a / 2) (b / 2) * 2 + max (a % 2) (b % 2)
bit_or_step a b = omega (
  arith,
  bit_or-bitwise a b,
  bit_or-bitwise (a / 2) (b / 2),
  lowest_digit (λ y. y) max (λ y. omega arith) a b,
)

pub bit_and_step : (a b : ℕ) → bit_and a b ≡ bit_and (a / 2) (b / 2) * 2 + min (a % 2) (b % 2)
bit_and_step a b = omega (
  arith,
  bit_and-bitwise a b,
  bit_and-bitwise (a / 2) (b / 2),
  lowest_digit (λ y. 0) min (λ y. omega arith) a b,
)

-- A shift by one more place doubles.
pub doubled : (places n : ℕ) → 2 * (n * 2 ^ places) ≡ n * 2 ^ suc places
doubled places n = omega (arith, ap (λ (power : ℕ). n * power) (pow-suc 2 places))

-- No bit is shared with zero, and none added: halving reaches zero within `n` rounds.
with_nothing : (n a : ℕ) → a ≤ n → (bit_and a 0 ≡ 0) × (bit_or a 0 ≡ a)
with_nothing n zero h = (refl, refl)
with_nothing zero (suc a) h = absurd (omega arith)
with_nothing (suc n) (suc a) h =
    let (both, either) = with_nothing n (suc a / 2) (omega arith) in
    (omega (arith, bit_and_step (suc a) 0, both), omega (arith, bit_or_step (suc a) 0, either))

with_one : (a : ℕ) → (bit_and a 1 ≡ a % 2) × (bit_or a 1 ≡ a / 2 * 2 + 1)
with_one a =
    let (both, either) = with_nothing (a / 2) (a / 2) (omega arith) in
    (omega (both, bit_and_step a 1, arith), omega (either, bit_or_step a 1, arith))

-- The masks that the flags of a slot are tested, cleared and set by.
pub bit_and-one : (a : ℕ) → bit_and a 1 ≡ a % 2
bit_and-one a = (with_one a).0

pub bit_and_two : (a : ℕ) → bit_and a 2 ≡ a / 2 % 2 * 2
bit_and_two a = omega (arith, bit_and_step a 2, bit_and-one (a / 2))

bit_and_fifteen : (a : ℕ) → bit_and a 15 ≡ a % 16
bit_and_fifteen a = omega (
  arith,
  bit_and_step a 15,
  bit_and_step (a / 2) 7,
  bit_and_step (a / 2 / 2) 3,
  bit_and-one (a / 2 / 2 / 2),
)

pub bit_and_byte : (a : ℕ) → bit_and a 255 ≡ a % 256
bit_and_byte a = omega (
  arith,
  bit_and_step a 255,
  bit_and_step (a / 2) 127,
  bit_and_step (a / 2 / 2) 63,
  bit_and_step (a / 2 / 2 / 2) 31,
  bit_and_fifteen (a / 2 / 2 / 2 / 2),
)

pub bit_and_even_byte : (a : ℕ) → bit_and a 254 ≡ a / 2 % 128 * 2
bit_and_even_byte a = omega (
  arith,
  bit_and_step a 254,
  bit_and_step (a / 2) 127,
  bit_and_step (a / 2 / 2) 63,
  bit_and_step (a / 2 / 2 / 2) 31,
  bit_and_fifteen (a / 2 / 2 / 2 / 2),
)

pub bit_or_two : (a : ℕ) → bit_or a 2 ≡ a / 4 * 4 + 2 + a % 2
bit_or_two a = omega (arith, bit_or_step a 2, (with_one (a / 2)).1)
