-- ===== src/DiskManager/Restart.antt =====
-- Closing the database file and opening it again.
use storage_prototype.Common.{
  ℕ, ◌^◌, ◌≤◌, ◌<◌, ◌≡◌, inr, refl, sym, ◌∙◌, subst, arith, true, false, some,
}
use storage_prototype.Memory.{Memory, store}
use storage_prototype.Memory.Fill.{filled}
use storage_prototype.Files.{Files, Reads, IsLawful}
use storage_prototype.DiskManager.{
  DiskManager, returns, error_already_open, ready, is_empty, magic_number, stor,
  stored_next_page_id, page_offset, close_ready, close_db_file, opened_db_file, load_db_file,
  disk_manager, read_page,
}
use storage_prototype.DiskManager.Pages.{read_page-returns, some_injective}
use storage_prototype.DiskManager.Session.{
  Usable, magic-store, next_page_id-store, fields-filled, finish_load-full, open_db_file-named,
  read_page-same,
}

-- The header that `CloseDBFile` writes.
abbrev pub closing_header : DiskManager → Memory
closing_header dm = store 4 8 dm.next_page_id dm.file_header

module _ (F : Files) (L : IsLawful F) (dm : DiskManager) (u : Usable dm) where
  open F use {Disk, exists_file, open_file, close_file, pread, pwrite, fsync}

  module _ (disk : Disk) (raw : Memory) (fd' : ℕ)
      (opened : L.Opened disk dm.db_file_name u.descriptor)
      (named : is_empty dm.db_file_name ≡ false)
      (written : (pwrite disk u.descriptor (closing_header dm) 596 0).1 ≡ some 596)
      (reopens : (open_file (close_db_file F dm disk).1 dm.db_file_name).1 ≡ some fd') where
    abbrev synced : Disk
    synced = (fsync (pwrite disk u.descriptor (closing_header dm) 596 0).0 u.descriptor).0

    abbrev closed : Disk
    closed = close_file synced u.descriptor

    close_lem : (close_db_file F dm disk).1 ≡ closed
    unfolding close_db_file close_ready
    close_lem = rw u.is_ready refl

    synced-Opened : L.Opened synced dm.db_file_name u.descriptor
    synced-Opened = L.fsync-Opened _ _ _ (L.pwrite-Opened disk _ _ _ _ _ opened)

    reopens' : (open_file closed dm.db_file_name).1 ≡ some fd'
    reopens' = rw close_lem at reopens

    -- What could be read behind the header before can be read now.
    still :
        (n offset : ℕ) (b : Memory)
        → 596 ≤ offset
        → Reads F disk u.descriptor n offset b
        → Reads F (open_file closed dm.db_file_name).0 fd' n offset b
    still n offset b p r = L.pread-reopen synced _ _ fd' n offset b synced-Opened reopens' (
        L.pread-fsync _ _ n offset b
          (L.pread-pwrite-Apart disk _ _ 596 0 written n offset b (inr (omega arith)) r))

    header_read : Reads F (open_file closed dm.db_file_name).0 fd' 596 0 (closing_header dm)
    header_read =
        L.pread-reopen synced _ _ fd' 596 0 _ synced-Opened reopens'
          (L.pread-fsync _ _ 596 0 _ (L.pread-pwrite_self disk _ _ 596 0 written))

    abbrev reopened : DiskManager
    reopened =
        let h = filled 596 raw (pread (open_file closed dm.db_file_name).0 fd' 596 0).0 in
        record {
          db_file_name = dm.db_file_name;
          db_file_descriptor = some fd';
          next_page_id = stored_next_page_id h;
          is_open = true;
          file_header = h;
        }

    reopened-magic : magic_number reopened.file_header ≡ stor
    reopened-magic =
        fields-filled raw _ (closing_header dm) 0 (omega arith) header_read.1
        ∙ magic-store 8 dm.next_page_id dm.file_header (omega arith)
        ∙ u.has_magic

    reopened-next : reopened.next_page_id ≡ dm.next_page_id
    reopened-next =
        fields-filled raw _ (closing_header dm) 8 (omega arith) header_read.1
        ∙ next_page_id-store dm.next_page_id dm.file_header u.id_fits

    reopened_lem :
        disk_manager F dm.db_file_name raw closed
        ≡ (reopened, (open_file closed dm.db_file_name).0, returns error_already_open)
    unfolding disk_manager opened_db_file load_db_file
    reopened_lem =
        open_db_file-named F _ closed refl named
        ∙ rw (L.exists-close synced _ _ synced-Opened, reopens', header_read.0)
            (finish_load-full F _ _ fd' _ reopened-magic)

    -- A session that is usable ends with `CloseDBFile`, whose write of the header is not cut short, and
    -- the file can be opened again. Then the constructor opens it, the next page id is the one where
    -- the last session stopped, and every page that `ReadPage` gave before it gives now, unchanged.
    pub restart_lem :
        let s = disk_manager F dm.db_file_name raw (close_db_file F dm disk).1 in
        (s.2 ≡ returns error_already_open)
        × (ready s.0 ≡ some fd')
        × (s.0.next_page_id ≡ dm.next_page_id)
        × ((page_id : ℕ) (buffer : Memory)
            → page_id < 2 ^ 32
            → (read_page F dm disk page_id (some buffer)).1 ≡ returns tt
            → read_page F s.0 s.1 page_id (some buffer) ≡ read_page F dm disk page_id (some buffer))
    unfolding ready
    restart_lem =
        rw (close_lem, reopened_lem)
          (
            refl,
            refl,
            reopened-next,
            λ page_id buffer p good.
                let (_, is_ready, full, _) = read_page-returns F dm disk page_id buffer good in
                let full' =
                  subst (λ (f : ℕ). (pread disk f 8192 (page_offset page_id)).1 ≡ some 8192)
                    (some_injective (sym is_ready ∙ u.is_ready)) full in
                read_page-same F dm reopened disk _ u.descriptor fd' page_id buffer u.is_ready refl
                  full'
                  (still 8192 (page_offset page_id) _ (omega (arith, p)) (full', λ k q. refl)),
          )
