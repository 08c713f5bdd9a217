-- ===== src/Page/Image/Laws.antt =====
-- The stored checksum: what it covers, and that a page that was just refreshed verifies.
use storage_prototype.Common.{ℕ, ◌+◌, ◌%◌, ◌^◌, ◌≤◌, ◌<◌, ◌≡◌, refl, ap, ◌∙◌, arith, true, ==_self}
use native.Mathlib.Nat.{zero-add}
use storage_prototype.Memory.{Memory, byte_at}
use storage_prototype.Checksum
use storage_prototype.Checksum.{init}
use storage_prototype.Checksum.Incremental.{update-lt, update_congr, finalize-lt}
use storage_prototype.Checksum.Detection.{init-lt}
use storage_prototype.Page.Layout.{PageHeader, header, slot, page_size, header_size}
use storage_prototype.Page.Layout.Laws.{header-write_header, write_header_above, slot-write_header}
use storage_prototype.Page.Layout.Bounds.{header_fits, write_header_start}
use storage_prototype.Page.Image.{compute_checksum, verify_checksum, refresh_checksum, create_new}

-- The checksum so far, after the header's first twelve bytes and four zeros.
unfoldable pub after_header : Memory → ℕ
after_header m = Checksum.update (Checksum.update init m 0 12) (λ _. 0) 0 4

pub after_header-lt : (m : Memory) → after_header m < 2 ^ 32
unfolding after_header
after_header-lt m = update-lt _ (λ _. 0) 0 4 (update-lt init m 0 12 init-lt)

pub compute_checksum_lem :
    (m : Memory)
    → compute_checksum m ≡ Checksum.finalize (Checksum.update (after_header m) m 40 8152)
unfolding compute_checksum after_header
compute_checksum_lem m = refl

pub compute_checksum-lt : (m : Memory) → compute_checksum m < 2 ^ 32
unfolding compute_checksum
compute_checksum-lt m = finalize-lt _

-- Only bytes 0 to 11 and 40 to 8191 count.
pub compute_checksum_congr :
    (m n : Memory)
    → ((x : ℕ) → x < 12 → byte_at m x ≡ byte_at n x)
    → ((x : ℕ) → 40 ≤ x → x < 8192 → byte_at m x ≡ byte_at n x)
    → compute_checksum m ≡ compute_checksum n
unfolding compute_checksum
compute_checksum_congr m n low high = ap Checksum.finalize (
    ap (λ (c : ℕ). Checksum.update (Checksum.update c (λ _. 0) 0 4) m 40 8152)
      (update_congr init m n 0 0 12 (λ k p. rw (zero-add k) (low k p)))
    ∙ update_congr _ m n 40 40 8152 (λ k p. high (40 + k) (omega arith) (omega arith)))

pub header-refresh_checksum :
    (m : Memory) → header (refresh_checksum m) ≡ record (header m) { checksum = compute_checksum m }
unfolding refresh_checksum
header-refresh_checksum m =
    header-write_header (record (header m) { checksum = compute_checksum m }) m
    ∙ (λ i. record (header_fits m i) { checksum = fits i })
  where
    fits : compute_checksum m % 2 ^ 32 ≡ compute_checksum m
    fits = omega (arith, compute_checksum-lt m)

pub slot-refresh_checksum :
    (id : ℕ) (m : Memory) → id < 1019 → slot (refresh_checksum m) id ≡ slot m id
unfolding refresh_checksum
slot-refresh_checksum id m fits = slot-write_header id _ m fits

pub refresh_checksum_above : (m : Memory) (x : ℕ) → 40 ≤ x → refresh_checksum m x ≡ m x
unfolding refresh_checksum
refresh_checksum_above m x h = write_header_above _ m x h

-- The field itself does not count.
compute-refresh_checksum : (m : Memory) → compute_checksum (refresh_checksum m) ≡ compute_checksum m
unfolding refresh_checksum
compute-refresh_checksum m =
    compute_checksum_congr _ m (λ x p. write_header_start (compute_checksum m) _ _ _ m x p)
      (λ x p q. ap (λ (b : ℕ). b % 256) (write_header_above _ m x p))

pub verify-refresh_checksum : (m : Memory) → verify_checksum (refresh_checksum m) ≡ true
unfolding verify_checksum
verify-refresh_checksum m =
    rw (ap (λ (h : PageHeader). h.checksum) (header-refresh_checksum m), compute-refresh_checksum m)
      (==_self (compute_checksum m))

-- The header of a new page.
pub header-create_new :
    (raw : Memory)
    → ((header (create_new raw)).free_start ≡ header_size)
      × ((header (create_new raw)).free_end ≡ page_size)
      × ((header (create_new raw)).slot_count ≡ 0)
      × ((header (create_new raw)).deleted_tuple_count ≡ 0)
      × ((header (create_new raw)).fragmented_bytes ≡ 0)
      × ((header (create_new raw)).is_dirty ≡ true)
unfolding create_new
header-create_new raw =
    rw (header-refresh_checksum, header-write_header) (refl, refl, refl, refl, refl, refl)

pub verify-create_new : (raw : Memory) → verify_checksum (create_new raw) ≡ true
unfolding create_new
verify-create_new raw = verify-refresh_checksum _
