-- ===== src/Memory.antt =====
-- Bytes in memory. A buffer is the function from an offset to the byte there; what the C++ code
-- reads and writes through `char*`, `memcpy` and fixed-width fields is expressed by the functions
-- here. Multi-byte fields are little endian, as on the x86-64 hosts the project builds for.
use storage_prototype.Common.{
  ℕ, zero, suc, ◌+◌, ◌-◌, ◌*◌, ◌/◌, ◌%◌, Bool, true, false, ◌&&◌, leb, ltb, ◌==◌, if◌then◌else◌,
}
pub mod Frame
pub mod Fill

abbrev pub Memory : Type 0
Memory = ℕ → ℕ

-- What `uint8_t*` reads there.
abbrev pub byte_at : Memory → ℕ → ℕ
byte_at m x = m x % 256

-- One byte written.
unfoldable pub poke : ℕ → ℕ → Memory → Memory
poke a v m x = if x == a then v else m x

-- A field of `w` bytes at offset `o`.
unfoldable pub store : ℕ → ℕ → ℕ → Memory → Memory
unfolding poke
store zero o v m = m
store (suc w) o v m = poke o (v % 256) (store w (o + 1) (v / 256) m)

unfoldable pub load : ℕ → ℕ → Memory → ℕ
load zero o m = 0
load (suc w) o m = byte_at m o + 256 * load w (o + 1) m

-- `memcpy(dst + off, src + from, n)` for ranges that do not overlap.
unfoldable pub memcpy : Memory → ℕ → Memory → ℕ → ℕ → Memory
memcpy dst off src from n x = if leb off x && ltb x (off + n) then src (from + (x - off)) else dst x

-- `memset(dst + off, v, n)`
unfoldable pub memset : Memory → ℕ → ℕ → ℕ → Memory
memset dst off v n x = if leb off x && ltb x (off + n) then v else dst x
