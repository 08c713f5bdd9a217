-- ===== src/Tests/DiskTests.antt =====
-- The theorems on the disk manager, on a disk that holds one file.
use storage_prototype.Common.{
  ℕ, ◌+◌, ◌*◌, ◌%◌, ◌^◌, ◌≤◌, ◌<◌, ◌≡◌, ◌≢◌, inr, refl, ap, ◌∙◌, arith, true, false, some, [], ◌∷◌,
  ◌==◌, if◌then◌else◌,
}
use storage_prototype.Memory.{Memory, byte_at}
use storage_prototype.Files.OneFile.{OneFile, empty_disk, one_file, one_file-IsLawful}
use storage_prototype.Memory.Fill.{filled, filled_below}
use storage_prototype.Page.Layout.{PageHeader, header, slot_offset, slot_entry_size, page_size}
use storage_prototype.Page.Layout.Laws.{header_congr}
use storage_prototype.Page.Image.{verify_checksum}
use storage_prototype.DiskManager.{
  DiskManager, Outcome, ErrorCode, page_offset, returns, throws, ready, new_file_header, store_page,
  read_page, write_page, allocate_page, deallocate_page, close_db_file, disk_manager,
  error_already_open, checksum_failed, file_not_open, stored_page_count,
}
use storage_prototype.DiskManager.Image.{Reloaded, store_page-slot_count}
use storage_prototype.DiskManager.Pages.{
  write_page-full, read_page-write_page, read_page-write_page_ne,
}
use storage_prototype.DiskManager.Damage.{read_page-damaged}
use storage_prototype.DiskManager.Session.{Usable, ready-open, open-ready, magic-new}
use storage_prototype.DiskManager.Restart.{restart_lem}
use storage_prototype.DiskManager.Allocation.{allocated, allocate_page_lem}
use storage_prototype.DiskManager.Refusal.{read_page-verified, closed_lem}
use storage_prototype.DiskManager.History.{constructed, Run-Usable}
use storage_prototype.Tests.Sample.{sample, header-sample, sample-WellFormed}

abbrev zeros : Memory
zeros x = 0

-- A session on the file "A", which was just made.
abbrev session : DiskManager
session = record {
  db_file_name = 65 ∷ [];
  db_file_descriptor = some 3;
  next_page_id = 1;
  is_open = true;
  file_header = new_file_header zeros;
}

abbrev made : OneFile
made = record empty_disk { created = true }

is_ready : ready session ≡ some 3
is_ready = ready-open session refl

abbrev session-Usable : Usable session
session-Usable = record {
  descriptor = 3;
  is_ready = is_ready;
  has_magic = magic-new zeros;
  id_fits = omega arith;
}

-- The sample written as page 5.
abbrev stored : OneFile
stored = (one_file.pwrite made 3 (store_page sample) 8192 (page_offset 5)).0

write_lem :
    (disk : OneFile) (page_id : ℕ)
    → write_page one_file session disk page_id (some sample) ≡ (
      (one_file.pwrite disk 3 (store_page sample) 8192 (page_offset page_id)).0,
      some (store_page sample),
      returns tt,
    )
write_lem disk page_id = write_page-full one_file session 3 is_ready disk page_id sample refl

returned :
    (disk : OneFile) (page_id : ℕ)
    → (write_page one_file session disk page_id (some sample)).2 ≡ returns tt
returned disk page_id = rw (write_lem disk page_id) refl

read_page-write_page_example :
    let r =
      read_page one_file session
        (write_page one_file session made 5 (some sample)).0
        5
        (some zeros) in
    (r.1 ≡ returns tt) × (m' : Memory) × (r.0 ≡ some m') × Reloaded sample m'
read_page-write_page_example =
    read_page-write_page one_file one_file-IsLawful session made 5 sample zeros sample-WellFormed
      (returned made 5)

readable : (read_page one_file session stored 5 (some zeros)).1 ≡ returns tt
readable =
    rw (write_lem made 5) at
      (read_page-write_page one_file one_file-IsLawful session made 5 sample zeros sample-WellFormed
        (returned made 5)).0

read_page-write_page_ne_example :
    read_page one_file session (write_page one_file session stored 6 (some sample)).0 5 (some zeros)
    ≡ read_page one_file session stored 5 (some zeros)
read_page-write_page_ne_example =
    read_page-write_page_ne one_file one_file-IsLawful session stored 6 5 sample zeros (omega arith)
      (omega arith) (omega arith) (returned stored 6) readable

read_page-verified_example :
    (m : Memory) × ((read_page one_file session stored 5 (some zeros)).0 ≡ some m)
    × (verify_checksum m ≡ true)
    × ((header m).is_dirty ≡ false)
read_page-verified_example = read_page-verified one_file session stored 5 (some zeros) readable

allocate_page_lem_example :
    ((allocate_page (allocated 3 session)).1 ≡ returns 4)
    × (stored_page_count (allocated 3 session).file_header % 2 ^ 32
        ≡ (stored_page_count session.file_header + 3) % 2 ^ 32)
allocate_page_lem_example = allocate_page_lem 3 session refl (omega arith)

closed_lem_example :
    let dm' = (close_db_file one_file session made).0 in
    (read_page one_file dm' stored 5 (some zeros) ≡ (some zeros, throws file_not_open))
    × (write_page one_file dm' stored 5 (some zeros) ≡ (stored, some zeros, throws file_not_open))
    × (allocate_page dm' ≡ (dm', throws file_not_open))
    × (deallocate_page dm' 5 ≡ throws file_not_open)
    × (close_db_file one_file dm' stored ≡ (dm', stored))
closed_lem_example = closed_lem one_file session made stored 5 (some zeros) (λ o. session-Usable)

stored-Opened : one_file-IsLawful.Opened stored (65 ∷ []) 3
stored-Opened =
    one_file-IsLawful.pwrite-Opened made (65 ∷ []) 3 (store_page sample) 8192 (page_offset 5)
      (one_file-IsLawful.open-Opened empty_disk (65 ∷ []) 3 refl)

restart_lem_example :
    let s = disk_manager one_file (65 ∷ []) zeros (close_db_file one_file session stored).1 in
    (s.2 ≡ returns error_already_open)
    × (ready s.0 ≡ some 3)
    × (s.0.next_page_id ≡ 1)
    × ((page_id : ℕ) (buffer : Memory)
        → page_id < 2 ^ 32
        → (read_page one_file session stored page_id (some buffer)).1 ≡ returns tt
        → read_page one_file s.0 s.1 page_id (some buffer)
          ≡ read_page one_file session stored page_id (some buffer))
restart_lem_example =
    restart_lem one_file one_file-IsLawful session session-Usable stored zeros 3 stored-Opened refl
      refl refl

again : DiskManager × OneFile × Outcome ErrorCode
again = disk_manager one_file (65 ∷ []) zeros (close_db_file one_file session stored).1

again-open : again.0.is_open ≡ true
unfolding again
again-open =
    open-ready again.0 3
      (restart_lem one_file one_file-IsLawful session session-Usable stored zeros 3 stored-Opened
        refl refl refl).1

Run-Usable_example : Usable again.0
unfolding again
Run-Usable_example =
    Run-Usable one_file (constructed (65 ∷ []) zeros (close_db_file one_file session stored).1)
      again-open

-- One bit of page 5 flipped on the disk.
abbrev spoilt : OneFile
spoilt = record stored {
  bytes = λ x. if x == 41656 then 1 + 2 * stored.bytes x + 255 * stored.bytes x else stored.bytes x;
}

spoilt_elsewhere :
    (x : ℕ)
    → x < 8192
    → x ≢ 100
    → byte_at (one_file.pread spoilt 3 8192 (page_offset 5)).0 x
      ≡ byte_at (one_file.pread stored 3 8192 (page_offset 5)).0 x
spoilt_elsewhere x p ne = ground arith

flipped : (n : ℕ) → (1 + 2 * n + 255 * n) % 256 ≢ n % 256
flipped n e = omega arith

-- What the first read gets.
abbrev read_bytes : Memory
read_bytes = filled 8192 zeros (one_file.pread stored 3 8192 (page_offset 5)).0

two_slots : (header read_bytes).slot_count ≤ 1024
two_slots =
    let same = header_congr read_bytes (store_page sample) (λ x p.
      filled_below 8192 zeros _ x (omega arith)
      ∙ (one_file-IsLawful.pread-pwrite_self made 3 (store_page sample) 8192 (page_offset 5) refl).1
          x (omega arith)) in
    omega (
      arith,
      ap (λ (h : PageHeader). h.slot_count) same,
      store_page-slot_count sample,
      ap (λ (h : PageHeader). h.slot_count) header-sample,
    )

read_page-damaged_example :
    let bytes' = filled 8192 zeros (one_file.pread spoilt 3 8192 (page_offset 5)).0 in
    ((header bytes').slot_count ≤ 1024)
    × ((i : ℕ) → i < (header bytes').slot_count → slot_offset i + slot_entry_size ≤ page_size)
    × ((read_page one_file session spoilt 5 (some zeros)).1 ≡ throws checksum_failed)
read_page-damaged_example =
    read_page-damaged one_file session 3 stored spoilt 5 zeros 100 is_ready readable refl
      (inr (inr (omega arith, omega arith))) two_slots spoilt_elsewhere
      (flipped (stored.bytes 41656))
