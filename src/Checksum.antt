-- ===== src/Checksum.antt =====
-- include/common/checksum.h and src/common/checksum.cpp: the CRC-32 of page images, most
-- significant bit first, one table look-up for each byte. A `uint32_t` is a number below 2 ^ 32 and
-- each shift is cut to 32 bits. `EnsureTableInitialized` fills the table once before any read of
-- it; the model reads the table that `BuildLookupTable` leaves.
use storage_prototype.Common.{
  ℕ, zero, suc, ◌+◌, ◌-◌, ◌*◌, ◌/◌, ◌%◌, ◌^◌, bit_and, bit_xor, List, [], ◌∷◌, get_or, ◌==◌,
  if◌then◌else◌,
}
use storage_prototype.Memory.{Memory, byte_at}
pub mod Table
pub mod Incremental
pub mod Detection

abbrev pub polynomial : ℕ
polynomial = 0x04C11DB7

abbrev pub initial_crc : ℕ
initial_crc = 0xFFFFFFFF

-- One round of the inner loop of `BuildLookupTable`.
pub shift_bit : ℕ → ℕ
shift_bit crc =
    if bit_and crc 0x80000000 == 0 then crc * 2 % 2 ^ 32 else bit_xor (crc * 2 % 2 ^ 32) polynomial

pub shift_bits : ℕ → ℕ → ℕ
shift_bits zero crc = crc
shift_bits (suc j) crc = shift_bits j (shift_bit crc)

-- The entry for index `i`.
pub table_entry : ℕ → ℕ
table_entry i = shift_bits 8 (i * 2 ^ 24 % 2 ^ 32)

-- The outer loop with `left` rounds to go, at index `i`.
pub build_rows : ℕ → ℕ → List ℕ
build_rows zero i = []
build_rows (suc left) i = table_entry i ∷ build_rows left (i + 1)

pub build_lookup_table : List ℕ
build_lookup_table = build_rows 256 0

pub init : ℕ
init = initial_crc

-- One round of the loop of `Update`.
pub update_byte : ℕ → ℕ → ℕ
update_byte crc byte =
    let table_index = bit_and (bit_xor (crc / 2 ^ 24) byte) 0xFF in
    bit_xor (crc * 2 ^ 8 % 2 ^ 32) (get_or build_lookup_table table_index 0)

-- `Update(crc, data + off, length)`
pub update : ℕ → Memory → ℕ → ℕ → ℕ
update crc bytes off zero = crc
update crc bytes off (suc length) =
    update (update_byte crc (byte_at bytes off)) bytes (off + 1) length

-- `~crc` on 32 bits.
pub finalize : ℕ → ℕ
finalize crc = 2 ^ 32 - 1 - crc % 2 ^ 32

pub compute : Memory → ℕ → ℕ
compute bytes length = finalize (update init bytes 0 length)
