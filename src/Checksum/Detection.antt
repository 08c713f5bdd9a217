-- ===== src/Checksum/Detection.antt =====
-- One damaged byte changes the checksum.
use storage_prototype.Common.{
  ℕ, zero, suc, ◌+◌, ◌-◌, ◌*◌, ◌%◌, ◌/◌, ◌^◌, ◌≤◌, ◌<◌, ◌≡◌, ◌≢◌, sym, ap, ◌∙◌, arith, bit_xor,
}
use native.Mathlib.Nat.{zero-add, add_assoc}
use storage_prototype.Common.Bits.Xor.{
  bit_xor-lt, bit_xor_shift, bit_xor_left_injective, bit_xor_right_injective,
}
use storage_prototype.Memory.{Memory, byte_at}
use storage_prototype.Checksum.{table_entry, update_byte, update, finalize, init, compute}
use storage_prototype.Checksum.Table.{low_byte_injective}
use storage_prototype.Checksum.Incremental.{
  index, update_byte_lem, update_byte-lt, update-lt, update-add, update_congr,
}

-- The high bytes and the low byte of a round.
round_parts :
    (crc b : ℕ)
    → update_byte crc b
      ≡ bit_xor (crc % 2 ^ 24) (table_entry (index crc b) / 256) * 256
        + table_entry (index crc b) % 256
round_parts crc b = omega (
  arith,
  update_byte_lem crc b,
  ap (λ (t : ℕ). bit_xor t entry) shifted,
  ap (bit_xor (crc % 2 ^ 24 * 2 ^ 8)) halves,
  bit_xor_shift 8 (crc % 2 ^ 24) (entry % 256) (entry / 256) (omega arith),
)
  where
    entry : ℕ
    entry = table_entry (index crc b)

    shifted : crc * 2 ^ 8 % 2 ^ 32 ≡ crc % 2 ^ 24 * 2 ^ 8
    shifted = omega arith

    halves : entry ≡ entry / 256 * 2 ^ 8 + entry % 256
    halves = omega arith

round_index : (c d x y : ℕ) → update_byte c x ≡ update_byte d y → index c x ≡ index d y
round_index c d x y e =
    low_byte_injective (index c x) (index d y) (omega arith) (omega arith)
      (omega (arith, round_parts c x, round_parts d y))

round_rest : (c d x y : ℕ) → update_byte c x ≡ update_byte d y → c % 2 ^ 24 ≡ d % 2 ^ 24
round_rest c d x y e = bit_xor_right_injective (table_entry (index c x) / 256) (
    omega (
      arith,
      round_parts c x,
      round_parts d y,
      ap (λ (t : ℕ). bit_xor (d % 2 ^ 24) (table_entry t / 256)) (round_index c d x y e),
    ))

index_eq : (c x : ℕ) → c < 2 ^ 32 → x < 256 → index c x ≡ bit_xor (c / 2 ^ 24) x
index_eq c x hc hx = omega (arith, bit_xor-lt 8 (c / 2 ^ 24) x (omega arith) hx)

-- A round is injective in the checksum so far, and in the byte.
update_byte_injective :
    (c d x : ℕ) → c < 2 ^ 32 → d < 2 ^ 32 → x < 256 → update_byte c x ≡ update_byte d x → c ≡ d
update_byte_injective c d x hc hd hx e = omega (
  arith,
  round_rest c d x x e,
  bit_xor_right_injective x (sym (index_eq c x hc hx) ∙ round_index c d x x e ∙ index_eq d x hd hx),
)

byte_injective :
    (c x y : ℕ) → c < 2 ^ 32 → x < 256 → y < 256 → update_byte c x ≡ update_byte c y → x ≡ y
byte_injective c x y hc hx hy e =
    bit_xor_left_injective (c / 2 ^ 24)
      (sym (index_eq c x hc hx) ∙ round_index c c x y e ∙ index_eq c y hc hy)

pub update_injective :
    (c d : ℕ) (m : Memory) (off n : ℕ)
    → c < 2 ^ 32
    → d < 2 ^ 32
    → update c m off n ≡ update d m off n
    → c ≡ d
unfolding update
update_injective c d m off zero hc hd e = e
update_injective c d m off (suc n) hc hd e =
    update_byte_injective c d (byte_at m off) hc hd (omega arith) (
      update_injective (update_byte c (byte_at m off)) (update_byte d (byte_at m off)) m (off + 1) n
        (update_byte-lt c _) (update_byte-lt d _) e)

-- `Update` at the byte with `k` before it and `n` behind it.
update-split :
    (c : ℕ) (m : Memory) (off k n : ℕ)
    → update c m off (k + suc n)
      ≡ update (update_byte (update c m off k) (byte_at m (off + k))) m (off + k + 1) n
unfolding update
update-split c m off k n = update-add c m off k (suc n)

-- Where two runs differ in the byte at `k` at most, equal checksums mean equal bytes.
update_detects :
    (c : ℕ) (m m' : Memory) (off k n : ℕ)
    → c < 2 ^ 32
    → ((j : ℕ) → j < k + suc n → j ≢ k → byte_at m' (off + j) ≡ byte_at m (off + j))
    → update c m' off (k + suc n) ≡ update c m off (k + suc n)
    → byte_at m' (off + k) ≡ byte_at m (off + k)
update_detects c m m' off k n hc same e =
    byte_injective (update c m off k) (byte_at m' (off + k)) (byte_at m (off + k))
      (update-lt c m off k hc) (omega arith) (omega arith)
      (update_injective _ _ m (off + k + 1) n (update_byte-lt _ _) (update_byte-lt _ _)
        (sym damaged ∙ e ∙ update-split c m off k n))
  where
    tail_same : (j : ℕ) → j < n → byte_at m' (off + k + 1 + j) ≡ byte_at m (off + k + 1 + j)
    tail_same j p =
        rw (add_assoc (off + k) 1 j, add_assoc off k (1 + j))
          (same (k + (1 + j)) (omega arith) (omega arith))

    damaged :
        update c m' off (k + suc n)
        ≡ update (update_byte (update c m off k) (byte_at m' (off + k))) m (off + k + 1) n
    damaged =
        update-split c m' off k n
        ∙ ap (λ (t : ℕ). update (update_byte t (byte_at m' (off + k))) m' (off + k + 1) n)
            (update_congr c m' m off off k (λ j p. same j (omega arith) (omega arith)))
        ∙ update_congr _ m' m (off + k + 1) (off + k + 1) n tail_same

-- The same by addresses: a run of `n` bytes from `off`, and the byte at `a`.
pub run_detects :
    (c : ℕ) (m m' : Memory) (off n a : ℕ)
    → c < 2 ^ 32
    → off ≤ a
    → a < off + n
    → ((x : ℕ) → off ≤ x → x < off + n → x ≢ a → byte_at m' x ≡ byte_at m x)
    → update c m' off n ≡ update c m off n
    → byte_at m' a ≡ byte_at m a
run_detects c m m' off n a hc lo hi same e = rw place at (
    update_detects c m m' off (a - off) (n - (a - off) - 1) hc
      (λ j p q. same (off + j) (omega arith) (omega arith) (omega arith)) (rw size e))
  where
    place : off + (a - off) ≡ a
    place = omega arith

    size : a - off + suc (n - (a - off) - 1) ≡ n
    size = omega arith

pub finalize_injective : (a b : ℕ) → a < 2 ^ 32 → b < 2 ^ 32 → finalize a ≡ finalize b → a ≡ b
unfolding finalize
finalize_injective a b ha hb e = omega arith

pub init-lt : init < 2 ^ 32
unfolding init
init-lt = omega arith

-- Two inputs of one length that differ in a single byte have different checksums.
pub compute_detects :
    (m m' : Memory) (n k : ℕ)
    → k < n
    → ((j : ℕ) → j < n → j ≢ k → byte_at m' j ≡ byte_at m j)
    → byte_at m' k ≢ byte_at m k
    → compute m' n ≢ compute m n
unfolding compute
compute_detects m m' n k below same differs e = differs (
    run_detects init m m' 0 n k init-lt (omega arith) (omega arith) (λ x p q. same x (omega arith))
      (finalize_injective _ _ (update-lt init m' 0 n init-lt) (update-lt init m 0 n init-lt) e))

-- The checksum over two adjoining runs is the one over both.
pub compute-add :
    (m : Memory) (n k : ℕ) → compute m (n + k) ≡ finalize (update (update init m 0 n) m n k)
unfolding compute
compute-add m n k = ap finalize (rw zero-add at (update-add init m 0 n k))
