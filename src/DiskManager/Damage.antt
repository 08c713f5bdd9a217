-- ===== src/DiskManager/Damage.antt =====
-- `ReadPage` of a page in which a byte was damaged on the disk.
use storage_prototype.Common.{
  ℕ, ◌+◌, ◌≤◌, ◌<◌, ◌≡◌, ◌≢◌, ◌⊎◌, inl, inr, refl, sym, ◌∙◌, subst, arith, true, some,
}
use storage_prototype.Memory.{Memory, byte_at}
use storage_prototype.Memory.Fill.{filled, filled_same, filled_differs}
use storage_prototype.Files.{Files}
use storage_prototype.Page.Layout.{header, slot_offset, slot_entry_size, page_size}
use storage_prototype.Page.Layout.Laws.{slot_inside, slot_count_congr}
use storage_prototype.Page.Image.{verify_checksum}
use storage_prototype.Page.Image.Damage.{verify_detects}
use storage_prototype.Page.Runtime.{verify-SamePage}
use storage_prototype.DiskManager.{
  DiskManager, returns, throws, ready, page_offset, load_page, read_page, checksum_failed,
}
use storage_prototype.DiskManager.Pages.{some_injective, read_page-full, read_page-returns}
use storage_prototype.DiskManager.Image.{load_page-SamePage}

-- Bytes that differ at `a` only, which is not 8 or 9, give the same slot count.
same_count :
    (bytes bytes' buffer : Memory) (a : ℕ)
    → (a < 8) ⊎ ((10 ≤ a) × (a < 12)) ⊎ ((40 ≤ a) × (a < 8192))
    → ((x : ℕ) → x < 8192 → x ≢ a → byte_at bytes' x ≡ byte_at bytes x)
    → (header (filled 8192 buffer bytes')).slot_count
      ≡ (header (filled 8192 buffer bytes)).slot_count
same_count bytes bytes' buffer a covered same =
    slot_count_congr _ _
      (λ x p q. filled_same 8192 buffer bytes bytes' a same x (λ e. omega (arith, e, covered)))

verified_byte :
    (a : ℕ)
    → (a < 8) ⊎ ((10 ≤ a) × (a < 12)) ⊎ ((40 ≤ a) × (a < 8192))
    → (a < 12) ⊎ ((40 ≤ a) × (a < 8192))
verified_byte a (inl p) = inl (omega arith)
verified_byte a (inr (inl p)) = inl (omega (arith, p))
verified_byte a (inr (inr p)) = inr p

module _ (F : Files) where
  open F use {Disk, pread}

  -- Of two disks, `ReadPage` returns on the first, for a page whose slot count is at most 1024. On the
  -- second the same page can be read, but exactly one of its bytes differs, at 0 to 7, 10 or 11 of the
  -- header or at 40 to 8191: there the slot count that `ReadPage` reads is at most 1024 too, so that the
  -- slots it visits before it verifies lie inside the page, and it throws the checksum error. The bytes
  -- 8 and 9, which hold the slot count, are left out.
  pub read_page-damaged :
      (dm : DiskManager) (fd : ℕ) (disk disk' : Disk) (page_id : ℕ) (buffer : Memory) (a : ℕ)
      → ready dm ≡ some fd
      → (read_page F dm disk page_id (some buffer)).1 ≡ returns tt
      → (pread disk' fd 8192 (page_offset page_id)).1 ≡ some 8192
      → (a < 8) ⊎ ((10 ≤ a) × (a < 12)) ⊎ ((40 ≤ a) × (a < 8192))
      → let bytes = (pread disk fd 8192 (page_offset page_id)).0 in
        (header (filled 8192 buffer bytes)).slot_count ≤ 1024
        → let bytes' = (pread disk' fd 8192 (page_offset page_id)).0 in
          ((x : ℕ) → x < 8192 → x ≢ a → byte_at bytes' x ≡ byte_at bytes x)
          → byte_at bytes' a ≢ byte_at bytes a
          → ((header (filled 8192 buffer bytes')).slot_count ≤ 1024)
            × ((i : ℕ)
                → i < (header (filled 8192 buffer bytes')).slot_count
                → slot_offset i + slot_entry_size ≤ page_size)
            × ((read_page F dm disk' page_id (some buffer)).1 ≡ throws checksum_failed)
  read_page-damaged dm fd disk disk' page_id buffer a is_ready good full covered few same differs =
      let (_, ready', _, verified) = read_page-returns F dm disk page_id buffer good in
      let bytes = (pread disk fd 8192 (page_offset page_id)).0 in
      let bytes' = (pread disk' fd 8192 (page_offset page_id)).0 in
      let verified' =
        subst
          (λ (f : ℕ).
            verify_checksum
              (load_page (filled 8192 buffer (pread disk f 8192 (page_offset page_id)).0))
            ≡ true)
          (some_injective (sym ready' ∙ is_ready)) verified in
      let refused =
        verify_detects (filled 8192 buffer bytes) (filled 8192 buffer bytes') a
          (filled_same 8192 buffer bytes bytes' a same) (verified_byte a covered)
          (sym (verify-SamePage (load_page-SamePage (filled 8192 buffer bytes)).0) ∙ verified')
          (filled_differs 8192 buffer bytes bytes' a (omega (arith, covered)) differs) in
      let count = same_count bytes bytes' buffer a covered same in
      let refused' = verify-SamePage (load_page-SamePage (filled 8192 buffer bytes')).0 ∙ refused in
      (
        omega (arith, few, count),
        λ i p. slot_inside i (omega (arith, p, few, count)),
        rw (read_page-full F dm fd is_ready disk' page_id buffer full, refused') refl,
      )
