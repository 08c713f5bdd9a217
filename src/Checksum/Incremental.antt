-- ===== src/Checksum/Incremental.antt =====
-- `Update` over a run of bytes: one call over two runs, what it depends on, and its range.
use storage_prototype.Common.{
  ℕ, zero, suc, ◌+◌, ◌*◌, ◌%◌, ◌/◌, ◌^◌, ◌<◌, ◌≡◌, refl, ap, ◌∙◌, arith, bit_xor, get_or,
}
use native.Mathlib.Nat.{zero-add, add-zero, suc-add, add-suc, add_assoc}
use native.Mathlib.Numerals.{add-one}
use storage_prototype.Common.Bits.{bit_and_byte}
use storage_prototype.Common.Bits.Xor.{bit_xor-lt}
use storage_prototype.Memory.{Memory, byte_at}
use storage_prototype.Checksum.{
  shift_bit, shift_bits, table_entry, update_byte, update, finalize, polynomial, build_lookup_table,
}
use storage_prototype.Checksum.Table.{get_or-build_lookup_table}

-- Splitting the input between two calls of `Update` gives the checksum of one call.
pub update-add :
    (crc : ℕ) (m : Memory) (off n k : ℕ)
    → update crc m off (n + k) ≡ update (update crc m off n) m (off + n) k
unfolding update
update-add crc m off zero k = rw (zero-add k, add-zero off)
update-add crc m off (suc n) k =
    rw (suc-add n k, add-suc off n, ← suc-add off n, ← add-one off)
      (update-add (update_byte crc (byte_at m off)) m (off + 1) n k)

-- Only the bytes of the run count.
pub update_congr :
    (crc : ℕ) (m m' : Memory) (off off' n : ℕ)
    → ((k : ℕ) → k < n → byte_at m (off + k) ≡ byte_at m' (off' + k))
    → update crc m off n ≡ update crc m' off' n
unfolding update
update_congr crc m m' off off' zero h = refl
update_congr crc m m' off off' (suc n) h = rw first (
    update_congr (update_byte crc (byte_at m' off')) m m' (off + 1) (off' + 1) n (λ k p. later k p))
  where
    first : byte_at m off ≡ byte_at m' off'
    first = rw (add-zero off, add-zero off') at (h 0 (omega arith))

    later : (k : ℕ) → k < n → byte_at m (off + 1 + k) ≡ byte_at m' (off' + 1 + k)
    later k p = rw (add_assoc off 1 k, add_assoc off' 1 k) (h (1 + k) (omega arith))

shift_bit-lt : (c : ℕ) → shift_bit c < 2 ^ 32
unfolding shift_bit
shift_bit-lt c =
    ground (arith, bit_xor-lt 32 (c * 2 % 2 ^ 32) polynomial (omega arith) (omega arith))

shift_bits-lt : (j c : ℕ) → c < 2 ^ 32 → shift_bits j c < 2 ^ 32
unfolding shift_bits
shift_bits-lt zero c h = h
shift_bits-lt (suc j) c h = shift_bits-lt j (shift_bit c) (shift_bit-lt c)

pub table_entry-lt : (i : ℕ) → table_entry i < 2 ^ 32
unfolding table_entry
table_entry-lt i = shift_bits-lt 8 (i * 2 ^ 24 % 2 ^ 32) (omega arith)

-- The index that a byte selects, and one round of `Update` by the entry there.
abbrev pub index : ℕ → ℕ → ℕ
index crc b = bit_xor (crc / 2 ^ 24) b % 256

pub update_byte_lem :
    (crc b : ℕ) → update_byte crc b ≡ bit_xor (crc * 2 ^ 8 % 2 ^ 32) (table_entry (index crc b))
unfolding update_byte
update_byte_lem crc b = ap (bit_xor (crc * 2 ^ 8 % 2 ^ 32)) (
    ap (λ (t : ℕ). get_or build_lookup_table t 0) (bit_and_byte (bit_xor (crc / 2 ^ 24) b))
    ∙ get_or-build_lookup_table (index crc b) (omega arith))

pub update_byte-lt : (crc b : ℕ) → update_byte crc b < 2 ^ 32
update_byte-lt crc b = omega (
  arith,
  update_byte_lem crc b,
  bit_xor-lt 32 (crc * 2 ^ 8 % 2 ^ 32) (table_entry (index crc b)) (omega arith) (table_entry-lt _),
)

pub update-lt : (crc : ℕ) (m : Memory) (off n : ℕ) → crc < 2 ^ 32 → update crc m off n < 2 ^ 32
unfolding update
update-lt crc m off zero h = h
update-lt crc m off (suc n) h =
    update-lt (update_byte crc (byte_at m off)) m (off + 1) n (update_byte-lt crc (byte_at m off))

pub finalize-lt : (crc : ℕ) → finalize crc < 2 ^ 32
unfolding finalize
finalize-lt crc = omega arith
