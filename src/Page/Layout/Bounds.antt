-- ===== src/Page/Layout/Bounds.antt =====
-- What is read from a struct fits its fields, and which bytes decide it.
use storage_prototype.Common.{ℕ, zero, suc, ◌+◌, ◌%◌, ◌^◌, ◌≤◌, ◌<◌, ◌≡◌, arith, Bool, not, ◌==◌}
use storage_prototype.Memory.{Memory, store, load, poke, byte_at}
use storage_prototype.Memory.Frame.{load-lt, load_congr_byte}
use storage_prototype.Page.Layout.{header, write_header, slot_offset, slot, read_slot}
use storage_prototype.Page.Layout.Laws.{fit_header, fit_slot, read_slot_congr, slot_offset_lem}

-- What is read from a struct fits its fields.
pub header_fits : (m : Memory) → fit_header (header m) ≡ header m
unfolding header
header_fits m = λ i. record {
  page_id = (fits2 0) i;
  slot_id = (fits2 2) i;
  free_start = (fits2 4) i;
  free_end = (fits2 6) i;
  slot_count = (fits2 8) i;
  page_type = (fits1 10) i;
  flags = (fits1 11) i;
  checksum = (fits4 12) i;
  deleted_tuple_count = (fits2 16) i;
  fragmented_bytes = (fits8 24) i;
  is_dirty = not (load 1 32 m == 0);
}
  where
    fits1 : (o : ℕ) → load 1 o m % 2 ^ 8 ≡ load 1 o m
    fits1 o = omega (arith, load-lt 1 o m)

    fits2 : (o : ℕ) → load 2 o m % 2 ^ 16 ≡ load 2 o m
    fits2 o = omega (arith, load-lt 2 o m)

    fits4 : (o : ℕ) → load 4 o m % 2 ^ 32 ≡ load 4 o m
    fits4 o = omega (arith, load-lt 4 o m)

    fits8 : (o : ℕ) → load 8 o m % 2 ^ 64 ≡ load 8 o m
    fits8 o = omega (arith, load-lt 8 o m)

pub slot_congr :
    (m n : Memory) (id : ℕ)
    → id < 1019
    → ((x : ℕ) → 40 ≤ x → x < 8192 → m x ≡ n x)
    → slot m id ≡ slot n id
unfolding slot
slot_congr m n id fits h = read_slot_congr m n (slot_offset id) (λ x p q.
    h x (omega (arith, slot_offset_lem id (omega arith)))
      (omega (arith, slot_offset_lem id (omega arith))))

pub slot_fits : (m : Memory) (id : ℕ) → fit_slot (slot m id) ≡ slot m id
unfolding slot read_slot
slot_fits m id = λ i. record {
  offset = (fits2 (slot_offset id)) i;
  length = (fits2 (slot_offset id + 2)) i;
  flags = (fits1 (slot_offset id + 4)) i;
  next_ptr0 = (fits1 (slot_offset id + 5)) i;
  next_ptr1 = (fits1 (slot_offset id + 6)) i;
  next_ptr2 = (fits1 (slot_offset id + 7)) i;
}
  where
    fits1 : (o : ℕ) → load 1 o m % 2 ^ 8 ≡ load 1 o m
    fits1 o = omega (arith, load-lt 1 o m)

    fits2 : (o : ℕ) → load 2 o m % 2 ^ 16 ≡ load 2 o m
    fits2 o = omega (arith, load-lt 2 o m)

-- A header that is written back unchanged, but for its checksum and the fields behind it, leaves the
-- first twelve bytes.
pub write_header_start :
    (c d f : ℕ) (b : Bool) (m : Memory) (x : ℕ)
    → x < 12
    → byte_at
        (write_header
          (record (header m) {
            checksum = c;
            deleted_tuple_count = d;
            fragmented_bytes = f;
            is_dirty = b;
          })
          m)
        x
      ≡ byte_at m x
unfolding header write_header store load poke
write_header_start c d f b m zero h = omega arith
write_header_start c d f b m (suc zero) h = omega arith
write_header_start c d f b m (suc (suc zero)) h = omega arith
write_header_start c d f b m (suc (suc (suc zero))) h = omega arith
write_header_start c d f b m (suc (suc (suc (suc zero)))) h = omega arith
write_header_start c d f b m (suc (suc (suc (suc (suc zero))))) h = omega arith
write_header_start c d f b m (suc (suc (suc (suc (suc (suc zero)))))) h = omega arith
write_header_start c d f b m (suc (suc (suc (suc (suc (suc (suc zero))))))) h = omega arith
write_header_start c d f b m (suc (suc (suc (suc (suc (suc (suc (suc zero)))))))) h = omega arith
write_header_start c d f b m (suc (suc (suc (suc (suc (suc (suc (suc (suc zero))))))))) h =
    omega arith
write_header_start c d f b m (suc (suc (suc (suc (suc (suc (suc (suc (suc (suc zero)))))))))) h =
    omega arith
write_header_start c d f b m (suc (suc (suc (suc (suc (suc (suc (suc (suc (suc (suc zero)))))))))))
      h =
    omega arith
write_header_start c d f b m
      (suc (suc (suc (suc (suc (suc (suc (suc (suc (suc (suc (suc x)))))))))))) h =
    absurd (omega arith)

pub checksum_congr :
    (m n : Memory)
    → ((x : ℕ) → 12 ≤ x → x < 16 → byte_at m x ≡ byte_at n x)
    → (header m).checksum ≡ (header n).checksum
unfolding header
checksum_congr m n h = load_congr_byte 4 12 m n h

pub header_bounds :
    (m : Memory)
    → ((header m).page_id < 2 ^ 16)
      × ((header m).free_start < 2 ^ 16)
      × ((header m).free_end < 2 ^ 16)
      × ((header m).slot_count < 2 ^ 16)
      × ((header m).deleted_tuple_count < 2 ^ 16)
      × ((header m).fragmented_bytes < 2 ^ 64)
unfolding header
header_bounds m = omega (
  arith,
  load-lt 2 0 m,
  load-lt 2 4 m,
  load-lt 2 6 m,
  load-lt 2 8 m,
  load-lt 2 16 m,
  load-lt 8 24 m,
)

pub slot_bounds :
    (m : Memory) (id : ℕ) → ((slot m id).offset < 2 ^ 16) × ((slot m id).length < 2 ^ 16)
unfolding slot read_slot
slot_bounds m id = omega (arith, load-lt 2 (slot_offset id) m, load-lt 2 (slot_offset id + 2) m)
