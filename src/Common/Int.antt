-- ===== src/Common/Int.antt =====
-- Integers over the native numbers, for the `int` codes that the program returns.
use Prim.Native.Nat.{ℕ, zero, suc}
use mathlib.Core.Path.{◌≡◌, refl, ap}
use native.Mathlib.Omega.{arith}
use mathlib.Core.Logic.{◌⊎◌, inl, inr, ◌≢◌}

-- `negsuc n` is -(n + 1).
pub data ℤ : Type 0 where
  pos : ℕ → ℤ
  negsuc : ℕ → ℤ

-- ErrorCode, by its `code`; the message that goes with a code is for the log only.
abbrev pub ErrorCode : Type 0
ErrorCode = ℤ

abbrev pub success : ErrorCode
success = pos 0

-- The code -k.
abbrev pub failure : ℕ → ErrorCode
failure zero = pos 0
failure (suc k) = negsuc k

abbrev magnitude : ℤ → ℕ
magnitude (pos n) = n
magnitude (negsuc n) = suc n

pub success-cases : (e : ErrorCode) → (e ≡ success) ⊎ (e ≢ success)
success-cases (pos zero) = inl refl
success-cases (pos (suc n)) = inr (λ h. absurd (omega (arith, ap magnitude h)))
success-cases (negsuc n) = inr (λ h. absurd (omega (arith, ap magnitude h)))
