-- ===== src/Common/Bits/Xor.antt =====
-- Exclusive or: cancellation, bounds, and its action on a shifted word.
use Prim.Native.Nat.{ℕ, zero, suc, ◌+◌, ◌*◌, ◌/◌, ◌^◌, ◌≤◌, ◌<◌, bit_xor}
use mathlib.Core.Path.{◌≡◌, refl, ap, sym, ◌∙◌}
use native.Mathlib.Nat.{pow-suc}
use native.Mathlib.Omega.{arith}
use storage_prototype.Common.Bits.{bit_xor_step, doubled}

cancel_fuel : (n a b : ℕ) → a ≤ n → b ≤ n → bit_xor (bit_xor a b) b ≡ a
cancel_fuel zero zero zero p q = refl
cancel_fuel zero (suc a) b p q = absurd (omega arith)
cancel_fuel zero zero (suc b) p q = absurd (omega arith)
cancel_fuel (suc n) a b p q = omega (
  arith,
  half,
  bit_xor_step (bit_xor a b) b,
  bit_xor_step a b,
  ap (λ (t : ℕ). bit_xor t (b / 2)) half,
  cancel_fuel n (a / 2) (b / 2) (omega arith) (omega arith),
)
  where
    half : bit_xor a b / 2 ≡ bit_xor (a / 2) (b / 2)
    half = omega (arith, bit_xor_step a b)

-- The same mask twice cancels.
pub bit_xor_cancel : (a b : ℕ) → bit_xor (bit_xor a b) b ≡ a
bit_xor_cancel a b = cancel_fuel (a + b) a b (omega arith) (omega arith)

pub bit_xor_right_injective : {a b : ℕ} (c : ℕ) → bit_xor a c ≡ bit_xor b c → a ≡ b
bit_xor_right_injective {a} {b} c e =
    sym (bit_xor_cancel a c) ∙ ap (λ (t : ℕ). bit_xor t c) e ∙ bit_xor_cancel b c

comm_fuel : (n a b : ℕ) → a ≤ n → b ≤ n → bit_xor a b ≡ bit_xor b a
comm_fuel zero zero zero p q = refl
comm_fuel zero (suc a) b p q = absurd (omega arith)
comm_fuel zero zero (suc b) p q = absurd (omega arith)
comm_fuel (suc n) a b p q = omega (
  arith,
  bit_xor_step a b,
  bit_xor_step b a,
  comm_fuel n (a / 2) (b / 2) (omega arith) (omega arith),
)

pub bit_xor_comm : (a b : ℕ) → bit_xor a b ≡ bit_xor b a
bit_xor_comm a b = comm_fuel (a + b) a b (omega arith) (omega arith)

pub bit_xor_left_injective : {a b : ℕ} (c : ℕ) → bit_xor c a ≡ bit_xor c b → a ≡ b
bit_xor_left_injective {a} {b} c e =
    bit_xor_right_injective c (bit_xor_comm a c ∙ e ∙ bit_xor_comm c b)

pub bit_xor-lt : (k a b : ℕ) → a < 2 ^ k → b < 2 ^ k → bit_xor a b < 2 ^ k
bit_xor-lt zero zero zero p q = omega arith
bit_xor-lt zero (suc a) b p q = absurd (omega arith)
bit_xor-lt zero zero (suc b) p q = absurd (omega arith)
bit_xor-lt (suc k) a b p q = omega (
  arith,
  pow-suc 2 k,
  bit_xor_step a b,
  bit_xor-lt k (a / 2) (b / 2) (omega (arith, pow-suc 2 k)) (omega (arith, pow-suc 2 k)),
)

-- A word shifted left by `k` leaves the low `k` digits of the mask as they are.
pub bit_xor_shift :
    (k q r s : ℕ) → r < 2 ^ k → bit_xor (q * 2 ^ k) (s * 2 ^ k + r) ≡ bit_xor q s * 2 ^ k + r
bit_xor_shift zero q r s fits = ground arith
bit_xor_shift (suc k) q r s fits =
    let half = bit_xor_shift k q (r / 2) s (omega (pow-suc 2 k, arith)) in
    ground (
      doubled k q,
      doubled k s,
      doubled k (bit_xor q s),
      pow-suc 2 k,
      half,
      bit_xor_step (q * 2 ^ suc k) (s * 2 ^ suc k + r),
      arith,
    )
