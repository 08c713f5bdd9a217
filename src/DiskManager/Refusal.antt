-- ===== src/DiskManager/Refusal.antt =====
-- What `DiskManager` refuses.
use storage_prototype.Common.{
  ℕ, ◌≡◌, ◌≢◌, refl, ap, true, false, some, none, Option, Bool-cases, inl, inr,
}
use storage_prototype.Memory.{Memory}
use storage_prototype.Files.{Files}
use storage_prototype.Page.Layout.{header}
use storage_prototype.Page.Image.{verify_checksum}
use storage_prototype.Page.Object.{PageBuffer}
use storage_prototype.DiskManager.{
  DiskManager, returns, throws, Outcome, ready, file_not_open, read_page, read_ready, write_page,
  write_ready, allocate_page, deallocate_page, close_ready, close_db_file,
}
use storage_prototype.DiskManager.Image.{load_page-SamePage}
use storage_prototype.DiskManager.Pages.{read_page-returns, read_page-full}
use storage_prototype.DiskManager.Session.{Usable}

module _ (F : Files) where
  open F use {Disk}

  null_read :
      (disk : Disk) (page_id : ℕ) (o : Option ℕ) → (read_ready F disk page_id none o).1 ≢ returns tt
  unfolding read_ready
  null_read disk page_id none e = absurd (cc (e))
  null_read disk page_id (some fd) e = absurd (cc (e))

  -- When `ReadPage` returns, the buffer was not null, the page in it verifies, and it is clean.
  pub read_page-verified :
      (dm : DiskManager) (disk : Disk) (page_id : ℕ) (p : PageBuffer)
      → (read_page F dm disk page_id p).1 ≡ returns tt
      → (m : Memory) × ((read_page F dm disk page_id p).0 ≡ some m)
        × (verify_checksum m ≡ true)
        × ((header m).is_dirty ≡ false)
  unfolding read_page
  read_page-verified dm disk page_id none e = absurd (null_read disk page_id (ready dm) e)
  read_page-verified dm disk page_id (some buffer) e =
      let (fd, is_ready, full, good) = read_page-returns F dm disk page_id buffer e in
      (
        _,
        ap (λ (r : PageBuffer × Outcome (Unit {0})). r.0)
            (read_page-full F dm fd is_ready disk page_id buffer full),
        good,
        (load_page-SamePage _).1,
      )

  closed_ready : (dm : DiskManager) → dm.is_open ≡ false → ready dm ≡ none
  unfolding ready
  closed_ready dm c = simp c refl

  closed_refuses :
      (dm : DiskManager) (disk : Disk) (page_id : ℕ) (p : PageBuffer)
      → dm.is_open ≡ false
      → (read_page F dm disk page_id p ≡ (p, throws file_not_open))
        × (write_page F dm disk page_id p ≡ (disk, p, throws file_not_open))
        × (allocate_page dm ≡ (dm, throws file_not_open))
        × (deallocate_page dm page_id ≡ throws file_not_open)
        × (close_db_file F dm disk ≡ (dm, disk))
  unfolding read_page read_ready write_page write_ready allocate_page deallocate_page close_db_file
      close_ready
  closed_refuses dm disk page_id p c = (
    rw (closed_ready dm c) refl,
    rw (closed_ready dm c) refl,
    simp c refl,
    simp c refl,
    rw (closed_ready dm c) refl,
  )

  close_db_file-is_open :
      (dm : DiskManager) (disk : Disk)
      → (dm.is_open ≡ true → Usable dm)
      → (close_db_file F dm disk).0.is_open ≡ false
  unfolding close_db_file close_ready
  close_db_file-is_open dm disk u = elim (Bool-cases dm.is_open) [
    | inl o ↦ rw (u o).is_ready refl
    | inr c ↦ rw (closed_ready dm c) c
  ]

  -- After `CloseDBFile`, in a state that the methods reach, reading and writing of any page, with a null
  -- buffer too, allocating and deallocating throw that the file is not open and change neither the
  -- disk nor the buffer nor the state, and closing again does nothing.
  pub closed_lem :
      (dm : DiskManager) (disk disk' : Disk) (page_id : ℕ) (p : PageBuffer)
      → (dm.is_open ≡ true → Usable dm)
      → let dm' = (close_db_file F dm disk).0 in
        (read_page F dm' disk' page_id p ≡ (p, throws file_not_open))
        × (write_page F dm' disk' page_id p ≡ (disk', p, throws file_not_open))
        × (allocate_page dm' ≡ (dm', throws file_not_open))
        × (deallocate_page dm' page_id ≡ throws file_not_open)
        × (close_db_file F dm' disk' ≡ (dm', disk'))
  closed_lem dm disk disk' page_id p u =
      closed_refuses (close_db_file F dm disk).0 disk' page_id p (close_db_file-is_open dm disk u)
