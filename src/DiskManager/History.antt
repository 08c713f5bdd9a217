-- ===== src/DiskManager/History.antt =====
-- The states that a `DiskManager` goes through: made by the constructor, then changed by its public
-- methods in any order.
use storage_prototype.Common.{ℕ, ◌≡◌, refl, sym, ◌∙◌, subst, true, Bool-cases, inl, inr}
use storage_prototype.Memory.{Memory}
use storage_prototype.Files.{Files}
use storage_prototype.Schema.{Name}
use storage_prototype.Page.Object.{PageBuffer}
use storage_prototype.DiskManager.{
  DiskManager, ready, disk_manager, close_db_file, allocate_page, write_page, db_is_open,
}
use storage_prototype.DiskManager.Session.{
  Usable, open_db_file-Usable, allocate_page-Usable, close_db_file-closed,
}

module _ (F : Files) where
  open F use {Disk}

  -- `ReadPage` and `DeallocatePage` change nothing.
  pub data Step (s : DiskManager × Disk) : DiskManager × Disk → Type 0 where
    closes : Step s (close_db_file F s.0 s.1)
    allocates : Step s ((allocate_page s.0).0, s.1)
    writes :
        (page_id : ℕ) (page_data : PageBuffer)
        → Step s (s.0, (write_page F s.0 s.1 page_id page_data).0)

  pub data Run : DiskManager × Disk → Type 0 where
    constructed :
        (name : Name) (raw : Memory) (disk : Disk)
        → Run ((disk_manager F name raw disk).0, (disk_manager F name raw disk).1)
    continued : {s s' : DiskManager × Disk} → Run s → Step s s' → Run s'

  close_db_file-Usable :
      (dm : DiskManager) (disk : Disk)
      → (dm.is_open ≡ true → Usable dm)
      → (close_db_file F dm disk).0.is_open ≡ true
      → Usable (close_db_file F dm disk).0
  unfolding close_db_file
  close_db_file-Usable dm disk u o =
      let (_, was, same) = close_db_file-closed F dm disk (ready dm) o in
      subst Usable (sym same) (u was)

  allocate_page-open : (dm : DiskManager) → (allocate_page dm).0.is_open ≡ dm.is_open
  unfolding allocate_page
  allocate_page-open dm = elim (Bool-cases dm.is_open) [ inl o ↦ simp o refl | inr c ↦ simp c refl ]

  Step-Usable :
      {s s' : DiskManager × Disk}
      → Step s s'
      → (s.0.is_open ≡ true → Usable s.0)
      → s'.0.is_open ≡ true
      → Usable s'.0
  Step-Usable {s} closes u o = close_db_file-Usable s.0 s.1 u o
  Step-Usable {s} allocates u o = allocate_page-Usable F s.0 (u (sym (allocate_page-open s.0) ∙ o))
  Step-Usable (writes page_id page_data) u o = u o

  -- From the constructor on, through allocations, writes and `CloseDBFile` in any order and with any
  -- results of the system calls: whenever `IsOpen` holds there is a descriptor, the header in memory
  -- has the magic number, and the next page id fits in 32 bits.
  pub Run-Usable : {s : DiskManager × Disk} → Run s → db_is_open s.0 ≡ true → Usable s.0
  unfolding disk_manager
  Run-Usable (constructed name raw disk) o = open_db_file-Usable F _ disk refl o
  Run-Usable (continued r s) o = Step-Usable s (Run-Usable r) o
