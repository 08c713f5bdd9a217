-- ===== src/Page/Directory/Flags.antt =====
-- What the flag masks do to a slot's flags, as arithmetic.
use storage_prototype.Common.{
  ℕ, ◌*◌, ◌/◌, ◌%◌, ◌^◌, ◌≡◌, bit_and, bit_or, true, false, not, ◌==◌, arith, ap,
}
use storage_prototype.Common.Bits.{
  bit_and-one, bit_and_two, bit_and_even_byte, bit_or_two, bit_and_byte,
}
use storage_prototype.Common.Bits.Fields.{bit_or_fields}
use storage_prototype.Page.Layout.{SlotEntry}
use storage_prototype.Page.Directory.{has_valid, has_forwarded}

pub has_valid_lem : (e : SlotEntry) → has_valid e ≡ not (e.flags % 2 == 0)
has_valid_lem e = ap (λ (t : ℕ). not (t == 0)) (bit_and-one e.flags)

pub has_forwarded_lem : (e : SlotEntry) → has_forwarded e ≡ not (e.flags / 2 % 2 == 0)
has_forwarded_lem e = ground (arith, bit_and_two e.flags)

-- `flags &= ~SLOT_VALID` clears the one flag, `flags |= SLOT_FORWARDED` sets the other.
pub clear_valid : (f : ℕ) → not (bit_and (bit_and f 254 % 2 ^ 8) 1 == 0) ≡ false
clear_valid f = ground (arith, bit_and-one (bit_and f 254 % 2 ^ 8), bit_and_even_byte f)

pub set_forwarded : (f : ℕ) → not (bit_and (bit_or f 2 % 2 ^ 8) 2 == 0) ≡ true
set_forwarded f = ground (arith, bit_and_two (bit_or f 2 % 2 ^ 8), bit_or_two f)

pub set_forwarded_keeps_valid :
    (f : ℕ) → not (bit_and (bit_or f 2 % 2 ^ 8) 1 == 0) ≡ not (bit_and f 1 == 0)
set_forwarded_keeps_valid f =
    ground (arith, bit_and-one (bit_or f 2 % 2 ^ 8), bit_and-one f, bit_or_two f)

-- A page id of 16 bits and a slot id of 8 bits survive the 24-bit pointer; of larger ones the
-- pointer keeps the remainders.
pub pointer_lem :
    (p s : ℕ)
    → (bit_or (bit_and p 0xFF % 2 ^ 8) (bit_and (p / 2 ^ 8) 0xFF % 2 ^ 8 * 2 ^ 8) ≡ p % 2 ^ 16)
      × (bit_and s 0xFF % 2 ^ 8 ≡ s % 2 ^ 8)
pointer_lem p s = (
  omega (
    arith,
    bit_and_byte p,
    bit_and_byte (p / 2 ^ 8),
    bit_or_fields 8 (bit_and p 0xFF % 2 ^ 8) (bit_and (p / 2 ^ 8) 0xFF % 2 ^ 8) (omega arith),
  ),
  omega (arith, bit_and_byte s),
)
