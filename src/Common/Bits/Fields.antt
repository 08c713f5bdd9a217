-- ===== src/Common/Bits/Fields.antt =====
-- `|` of a low field and a shifted one is their sum.
use Prim.Native.Nat.{ℕ, zero, suc, ◌+◌, ◌*◌, ◌/◌, ◌^◌, ◌<◌, bit_or, bit_or-bitwise}
use mathlib.Core.Path.{◌≡◌}
use native.Mathlib.Nat.{pow-suc}
use native.Mathlib.Omega.{arith}
use storage_prototype.Common.Bits.{bit_or_step, doubled}

nothing_low : (high : ℕ) → bit_or 0 high ≡ high
nothing_low high = bit_or-bitwise 0 high

pub bit_or_fields :
    (width low high : ℕ) → low < 2 ^ width → bit_or low (high * 2 ^ width) ≡ low + high * 2 ^ width
bit_or_fields zero zero high room = omega (nothing_low (high * 2 ^ 0), arith)
bit_or_fields zero (suc low) high room = absurd (omega arith)
bit_or_fields (suc width) low high room =
    let half = bit_or_fields width (low / 2) high (omega (pow-suc 2 width, arith)) in
    ground (doubled width high, half, bit_or_step low (high * 2 ^ suc width), arith)
