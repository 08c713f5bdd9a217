-- ===== src/DiskManager/Allocation.antt =====
-- `AllocatePage`, called again and again.
use storage_prototype.Common.{ℕ, zero, suc, ◌+◌, ◌%◌, ◌^◌, ◌<◌, ◌≡◌, refl, ap, ◌∙◌, arith, true}
use storage_prototype.Memory.Frame.{load-store_self}
use storage_prototype.DiskManager.{DiskManager, returns, allocate_page, stored_page_count}

-- The state after `n` calls.
pub allocated : ℕ → DiskManager → DiskManager
allocated zero dm = dm
allocated (suc n) dm = allocated n (allocate_page dm).0

allocate_page-open :
    (dm : DiskManager)
    → dm.is_open ≡ true
    → ((allocate_page dm).1 ≡ returns dm.next_page_id)
      × ((allocate_page dm).0.is_open ≡ true)
      × ((allocate_page dm).0.next_page_id ≡ (dm.next_page_id + 1) % 2 ^ 32)
      × (stored_page_count (allocate_page dm).0.file_header
          ≡ (stored_page_count dm.file_header + 1) % 2 ^ 32)
unfolding allocate_page
allocate_page-open dm o = simp o (refl, refl, refl, load-store_self 4 520 _ _ ∙ omega arith)

-- While the file is open and the ids do not run out, the call after `n` calls returns the id that lies
-- `n` above the next page id at the start, so no id is given twice; and by then the page count of the
-- header in memory has grown by `n`, in 32 bits.
pub allocate_page_lem :
    (n : ℕ) (dm : DiskManager)
    → dm.is_open ≡ true
    → dm.next_page_id + n < 2 ^ 32
    → ((allocate_page (allocated n dm)).1 ≡ returns (dm.next_page_id + n))
      × (stored_page_count (allocated n dm).file_header % 2 ^ 32
          ≡ (stored_page_count dm.file_header + n) % 2 ^ 32)
unfolding allocated
allocate_page_lem zero dm o p = (
  (allocate_page-open dm o).0 ∙ ap returns (omega arith),
  ap (λ (c : ℕ). c % 2 ^ 32) (omega arith),
)
allocate_page_lem (suc n) dm o p =
    let (_, o', next, count) = allocate_page-open dm o in
    let (id, counted) = allocate_page_lem n (allocate_page dm).0 o' (omega (arith, next)) in
    (id ∙ ap returns (omega (arith, next)), omega (arith, counted, count))
