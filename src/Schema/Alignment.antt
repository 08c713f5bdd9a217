-- ===== src/Schema/Alignment.antt =====
-- Alignment of offsets.
use storage_prototype.Common.{ℕ, ◌+◌, ◌%◌, ◌^◌, ◌≤◌, ◌<◌, ◌≡◌, arith}
use storage_prototype.Schema.{
  DataType, boolean, tinyint, smallint, integer, bigint, float, double, char, varchar, text, blob,
  calculate_alignment, calculate_padding, align_offset,
}

-- Below the last eight offsets of 64 bits, `AlignOffset` returns the first offset from the given one
-- on that is a multiple of the type's alignment, and it is at most seven away.
pub align_offset_lem :
    (offset : ℕ) (type : DataType)
    → offset + 8 ≤ 2 ^ 64
    → (offset ≤ align_offset offset type)
      × (align_offset offset type ≤ offset + 7)
      × (align_offset offset type % calculate_alignment type ≡ 0)
      × ((x : ℕ) → offset ≤ x → x % calculate_alignment type ≡ 0 → align_offset offset type ≤ x)
unfolding align_offset calculate_padding calculate_alignment
align_offset_lem o boolean h = (omega arith, omega arith, omega arith, λ x p q. omega arith)
align_offset_lem o tinyint h = (omega arith, omega arith, omega arith, λ x p q. omega arith)
align_offset_lem o smallint h = (omega arith, omega arith, omega arith, λ x p q. omega arith)
align_offset_lem o integer h = (omega arith, omega arith, omega arith, λ x p q. omega arith)
align_offset_lem o bigint h = (omega arith, omega arith, omega arith, λ x p q. omega arith)
align_offset_lem o float h = (omega arith, omega arith, omega arith, λ x p q. omega arith)
align_offset_lem o double h = (omega arith, omega arith, omega arith, λ x p q. omega arith)
align_offset_lem o char h = (omega arith, omega arith, omega arith, λ x p q. omega arith)
align_offset_lem o varchar h = (omega arith, omega arith, omega arith, λ x p q. omega arith)
align_offset_lem o text h = (omega arith, omega arith, omega arith, λ x p q. omega arith)
align_offset_lem o blob h = (omega arith, omega arith, omega arith, λ x p q. omega arith)

-- The offset that `AlignOffset` returns is less than one alignment away.
pub align_offset_below :
    (offset : ℕ) (type : DataType)
    → offset + 8 ≤ 2 ^ 64
    → align_offset offset type < offset + calculate_alignment type
unfolding align_offset calculate_padding calculate_alignment
align_offset_below o boolean h = omega arith
align_offset_below o tinyint h = omega arith
align_offset_below o smallint h = omega arith
align_offset_below o integer h = omega arith
align_offset_below o bigint h = omega arith
align_offset_below o float h = omega arith
align_offset_below o double h = omega arith
align_offset_below o char h = omega arith
align_offset_below o varchar h = omega arith
align_offset_below o text h = omega arith
align_offset_below o blob h = omega arith
