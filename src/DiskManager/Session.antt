-- ===== src/DiskManager/Session.antt =====
-- `OpenDBFile`, `CloseDBFile` and `AllocatePage`: a session on the database file, and the next one.
use storage_prototype.Common.{
  ℕ, ◌+◌, ◌^◌, ◌≤◌, ◌<◌, ◌≡◌, inl, inr, refl, sym, ap, ◌∙◌, subst, arith, Bool, true, false,
  Bool-cases, ◌==◌, ==→eq, Option, none, some,
}
use storage_prototype.Memory.{Memory, load, store, memcpy}
use storage_prototype.Memory.Frame.{
  load-lt, load_congr, load-store_self, load-store-Apart, cut_fits,
}
use storage_prototype.Memory.Fill.{filled, filled_below, filled_congr}
use storage_prototype.Files.{Files, Reads}
use storage_prototype.DiskManager.{
  DiskManager, Outcome, returns, ErrorCode, error_already_open, ready, is_empty, magic_number,
  stored_next_page_id, stor, file_header_size, new_file_header, page_offset, finish_create,
  create_db_file, finish_load, load_db_file, opened_db_file, open_db_file, close_ready,
  allocate_page, read_page,
}
use storage_prototype.DiskManager.Pages.{read_page-full, accept}

-- The file is open, and the header and the next page id are fit to be stored.
pub record Usable (dm : DiskManager) : Type 0 where
  pub descriptor : ℕ
  pub is_ready : ready dm ≡ some descriptor
  pub has_magic : magic_number dm.file_header ≡ stor
  pub id_fits : dm.next_page_id < 2 ^ 32

pub magic-store : (o v : ℕ) (h : Memory) → 4 ≤ o → magic_number (store 4 o v h) ≡ magic_number h
magic-store o v h p = load-store-Apart 4 0 4 o v h (inl p)

pub next_page_id-store : (v : ℕ) (h : Memory) → v < 2 ^ 32 → stored_next_page_id (store 4 8 v h) ≡ v
next_page_id-store v h p = load-store_self 4 8 v h ∙ cut_fits 4 v (omega arith)

pub magic-new : (h : Memory) → magic_number (new_file_header h) ≡ stor
unfolding new_file_header
magic-new h =
    magic-store 520 _ _ (omega arith)
    ∙ magic-store 516 _ _ (omega arith)
    ∙ magic-store 8 _ _ (omega arith)
    ∙ magic-store 4 _ _ (omega arith)
    ∙ load-store_self 4 0 stor _
    ∙ cut_fits 4 stor (omega arith)

pub ready-open : (dm : DiskManager) → dm.is_open ≡ true → ready dm ≡ dm.db_file_descriptor
unfolding ready
ready-open dm e = rw e refl

pub open-ready : (dm : DiskManager) (fd : ℕ) → ready dm ≡ some fd → dm.is_open ≡ true
unfolding ready
open-ready dm fd e = elim (Bool-cases dm.is_open) [ inl o ↦ o | inr c ↦ absurd (cc (rw c at e)) ]

-- The bytes of a header that was read in full.
pub fields-filled :
    (raw bytes h : Memory) (o : ℕ)
    → o + 4 ≤ 596
    → ((k : ℕ) → k < 596 → bytes k ≡ h k)
    → load 4 o (filled 596 raw bytes) ≡ load 4 o h
fields-filled raw bytes h o p same =
    load_congr 4 o _ h (λ x q r. filled_below 596 raw bytes x (omega arith) ∙ same x (omega arith))

module _ (F : Files) where
  open F use {Disk, exists_file, open_file, close_file, pread, pwrite, fsync}

  finish_create-Usable :
      (dm : DiskManager) (disk : Disk) (fd : ℕ) (n : Option ℕ)
      → dm.is_open ≡ false
      → magic_number dm.file_header ≡ stor
      → dm.next_page_id < 2 ^ 32
      → (finish_create F dm disk fd n).0.is_open ≡ true
      → Usable (finish_create F dm disk fd n).0
  unfolding finish_create ready
  finish_create-Usable dm disk fd none c g p o = absurd (cc (c, o))
  finish_create-Usable dm disk fd (some n) c g p o = elim (Bool-cases (n == file_header_size)) [
    | inl all ↦ rw all (record { descriptor = fd; is_ready = refl; has_magic = g; id_fits = p })
    | inr few ↦ absurd (cc (c, rw few at o))
  ]

  finish_load-Usable :
      (dm : DiskManager) (disk : Disk) (fd : ℕ) (bytes : Memory) (n : Option ℕ)
      → dm.is_open ≡ false
      → (finish_load F dm disk fd bytes n).0.is_open ≡ true
      → Usable (finish_load F dm disk fd bytes n).0
  unfolding finish_load ready
  finish_load-Usable dm disk fd bytes none c o = absurd (cc (c, o))
  finish_load-Usable dm disk fd bytes (some n) c o = elim (Bool-cases (n == file_header_size)) [
    | inl all ↦ elim (Bool-cases (magic_number (memcpy dm.file_header 0 bytes 0 n) == stor)) [
      | inl good ↦
          rw (all, good)
            (record {
              descriptor = fd;
              is_ready = refl;
              has_magic = ==→eq _ _ good;
              id_fits = load-lt 4 8 _;
            })
      | inr bad ↦ absurd (cc (c, rw (all, bad) at o))
    ]
    | inr few ↦ absurd (cc (c, rw few at o))
  ]

  opened_db_file-Usable :
      (dm : DiskManager) (disk : Disk) (b : Bool) (fd : Option ℕ)
      → dm.is_open ≡ false
      → (opened_db_file F dm disk b fd).0.is_open ≡ true
      → Usable (opened_db_file F dm disk b fd).0
  unfolding opened_db_file create_db_file load_db_file
  opened_db_file-Usable dm disk b none c o = absurd (cc (c, o))
  opened_db_file-Usable dm disk true (some fd) c o = finish_load-Usable dm disk fd _ _ c o
  opened_db_file-Usable dm disk false (some fd) c o =
      finish_create-Usable _ _ fd _ c (magic-new dm.file_header) (omega arith) o

  pub open_db_file-named :
      (dm : DiskManager) (disk : Disk)
      → dm.is_open ≡ false
      → is_empty dm.db_file_name ≡ false
      → open_db_file F dm disk
        ≡ opened_db_file F dm
            (open_file disk dm.db_file_name).0
            (exists_file disk dm.db_file_name)
            (open_file disk dm.db_file_name).1
  unfolding open_db_file
  open_db_file-named dm disk c named = simp (c, named) refl

  pub open_db_file-Usable :
      (dm : DiskManager) (disk : Disk)
      → dm.is_open ≡ false
      → (open_db_file F dm disk).0.is_open ≡ true
      → Usable (open_db_file F dm disk).0
  unfolding open_db_file
  open_db_file-Usable dm disk c o = elim (Bool-cases (is_empty dm.db_file_name)) [
    | inl no_name ↦ absurd (cc (simp (c, no_name) at o))
    | inr named ↦
        let e = open_db_file-named dm disk c named in
        subst (λ (r : DiskManager × Disk × Outcome ErrorCode). Usable r.0) (sym e)
          (opened_db_file-Usable dm _ _ _ c (rw e at o))
  ]

  pub allocate_page-Usable : (dm : DiskManager) → Usable dm → Usable (allocate_page dm).0
  unfolding allocate_page ready
  allocate_page-Usable dm u = elim (Bool-cases dm.is_open) [
    | inl o ↦ rw o (record {
      descriptor = u.descriptor;
      is_ready = sym (ready-open dm o) ∙ u.is_ready;
      has_magic = magic-store 520 _ _ (omega arith) ∙ u.has_magic;
      id_fits = omega arith;
    })
    | inr c ↦ simp c u
  ]

  pub close_db_file-closed :
      (dm : DiskManager) (disk : Disk) (o : Option ℕ)
      → (close_ready F dm disk o).0.is_open ≡ true
      → (o ≡ none) × (dm.is_open ≡ true) × ((close_ready F dm disk o).0 ≡ dm)
  unfolding close_ready
  close_db_file-closed dm disk none e = (refl, e, refl)
  close_db_file-closed dm disk (some fd) e = absurd (cc (e))

  pub finish_load-full :
      (dm : DiskManager) (disk : Disk) (fd : ℕ) (bytes : Memory)
      → magic_number (filled 596 dm.file_header bytes) ≡ stor
      → finish_load F dm disk fd bytes (some 596) ≡ (
        record dm {
          db_file_descriptor = some fd;
          file_header = filled 596 dm.file_header bytes;
          next_page_id = stored_next_page_id (filled 596 dm.file_header bytes);
          is_open = true;
        },
        disk,
        returns error_already_open,
      )
  unfolding finish_load
  finish_load-full dm disk fd bytes e = simp e refl

  -- A page that could be read in one session and whose bytes are on disk in the next.
  pub read_page-same :
      (dm dm' : DiskManager) (disk disk' : Disk) (fd fd' page_id : ℕ) (buffer : Memory)
      → ready dm ≡ some fd
      → ready dm' ≡ some fd'
      → (pread disk fd 8192 (page_offset page_id)).1 ≡ some 8192
      → Reads F disk' fd' 8192 (page_offset page_id) (pread disk fd 8192 (page_offset page_id)).0
      → read_page F dm' disk' page_id (some buffer) ≡ read_page F dm disk page_id (some buffer)
  read_page-same dm dm' disk disk' fd fd' page_id buffer r r' full (full', same) =
      read_page-full F dm' fd' r' disk' page_id buffer full'
      ∙ ap accept (filled_congr 8192 buffer _ _ same)
      ∙ sym (read_page-full F dm fd r disk page_id buffer full)
