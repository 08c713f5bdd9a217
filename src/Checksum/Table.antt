-- ===== src/Checksum/Table.antt =====
-- The look-up table: its entries, and that the low byte of an entry tells its index.
use storage_prototype.Common.{
  ℕ, zero, suc, ◌+◌, ◌*◌, ◌/◌, ◌%◌, ◌<◌, ◌≡◌, refl, sym, ap, ◌∙◌, bit_xor, get_or, arith, Bool,
  true, false, ◌&&◌, ◌==◌, ==→eq, eq-or-ne, inl, inr,
}
use storage_prototype.Checksum.{table_entry, build_rows, build_lookup_table, shift_bits, shift_bit}

get_or-build_rows : (left i k : ℕ) → k < left → get_or (build_rows left i) k 0 ≡ table_entry (i + k)
unfolding build_rows
get_or-build_rows zero i k h = absurd (omega arith)
get_or-build_rows (suc left) i zero h = ap table_entry (omega arith)
get_or-build_rows (suc left) i (suc k) h =
    get_or-build_rows left (i + 1) k (omega arith) ∙ ap table_entry (omega arith)

-- The table holds the entry for each index that a byte can name.
pub get_or-build_lookup_table : (k : ℕ) → k < 256 → get_or build_lookup_table k 0 ≡ table_entry k
unfolding build_lookup_table
get_or-build_lookup_table k h = get_or-build_rows 256 0 k h ∙ ap table_entry (omega arith)

-- The index from the low byte of its entry; each digit of the byte adds its share.
index_of : ℕ → ℕ
index_of b = bit_xor (b % 2 * 169) (
    bit_xor (b / 2 % 2 * 87) (
      bit_xor (b / 4 % 2 * 174) (
        bit_xor (b / 8 % 2 * 89) (
          bit_xor (b / 16 % 2 * 178)
            (bit_xor (b / 32 % 2 * 97) (bit_xor (b / 64 % 2 * 195) (b / 128 % 2 * 130)))))))

-- Whether `index_of` inverts the low byte at the `left` first indices, from the last one down.
inverts_down : (left : ℕ) → Bool
inverts_down zero = true
inverts_down (suc left) = inverts_down left && (index_of (table_entry left % 256) == left)

inverts_at :
    (left k : ℕ)
    → inverts_down left ≡ true
    → k < left
    → (index_of (table_entry k % 256) == k) ≡ true
unfolding inverts_down
inverts_at zero k all h = absurd (omega arith)
inverts_at (suc left) k all h = elim (eq-or-ne k left) [
  | inl last ↦ rw last (second (inverts_down left) _ all)
  | inr earlier ↦ inverts_at left k (first (inverts_down left) _ all) (omega arith)
]
  where
    first : (a b : Bool) → (a && b) ≡ true → a ≡ true
    first true b e = refl
    first false b e = e

    second : (a b : Bool) → (a && b) ≡ true → b ≡ true
    second true b e = e
    second false b e = ground arith

whole_byte : inverts_down 256 ≡ true
unfolding inverts_down index_of table_entry shift_bits shift_bit
whole_byte = refl

-- Two indices of a byte whose entries end in the same byte are the same.
pub low_byte_injective :
    (i j : ℕ) → i < 256 → j < 256 → table_entry i % 256 ≡ table_entry j % 256 → i ≡ j
low_byte_injective i j hi hj e = sym (back i hi) ∙ ap index_of e ∙ back j hj
  where
    back : (k : ℕ) → k < 256 → index_of (table_entry k % 256) ≡ k
    back k h = ==→eq _ k (inverts_at 256 k whole_byte h)
