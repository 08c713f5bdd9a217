-- ===== src/DiskManager.antt =====
-- include/storage/disk_manager.h, src/storage/disk_manager.cpp: class `DiskManager`, over the system
-- calls on files. The struct `FileHeader` is its bytes, 596 of them. `OpenDBFile`, `CloseDBFile` and
-- `AllocatePage` hold `metadata_mutex_` for their whole body, so each is one step.
pub mod Image
pub mod Pages
pub mod Damage
pub mod Session
pub mod Restart
pub mod Allocation
pub mod Refusal
pub mod History
use storage_prototype.Common.{
  ℕ, ◌+◌, ◌*◌, ◌%◌, ◌^◌, Bool, true, false, not, ◌&&◌, ◌==◌, if◌then◌else◌, Option, none, some, [],
  ◌∷◌,
}
use storage_prototype.Memory.{Memory, load, store, memcpy, memset}
use storage_prototype.Checksum
use storage_prototype.Files.{Files}
use storage_prototype.Schema.{Name}
use storage_prototype.Page.Layout.{header, with_header, page_size}
use storage_prototype.Page.Directory.{recompute_from}
use storage_prototype.Page.Object.{PageBuffer}
use storage_prototype.Page.View.{view_compute_checksum, view_verify_checksum}

-- What the methods throw, by the message.
pub data Exception : Type 0 where
  open_failed : Exception
  header_write_failed : Exception
  header_read_failed : Exception
  invalid_format : Exception
  file_not_open : Exception
  null_page_data : Exception
  read_failed : Exception
  write_failed : Exception
  checksum_failed : Exception

-- A call that returns a value or throws.
pub data Outcome {ℓ} (A : Type ℓ) : Type ℓ where
  returns : A → Outcome A
  throws : Exception → Outcome A

-- DiskManager::ErrorCode; success is the code 0 as well.
pub data ErrorCode : Type 0 where
  error_already_open : ErrorCode
  error_invalid_filename : ErrorCode

-- sizeof(FileHeader)
abbrev pub file_header_size : ℕ
file_header_size = 596

-- "STOR", its first byte lowest.
abbrev pub stor : ℕ
stor = 0x524F5453

abbrev pub magic_number : Memory → ℕ
magic_number h = load 4 0 h

abbrev pub stored_next_page_id : Memory → ℕ
stored_next_page_id h = load 4 8 h

abbrev pub stored_page_count : Memory → ℕ
stored_page_count h = load 4 520 h

pub record DiskManager : Type 0 where
  pub db_file_name : Name
  pub db_file_descriptor : Option ℕ
  pub next_page_id : ℕ
  pub is_open : Bool
  pub file_header : Memory

-- The header of a new file.
unfoldable pub new_file_header : Memory → Memory
new_file_header h = store 4 520 0 (
    store 4 516 page_size
      (store 4 8 1 (store 4 4 1 (store 4 0 stor (memset h 0 0 file_header_size)))))

-- sizeof(FileHeader) + (page_id * PAGE_SIZE), in `size_t`
abbrev pub page_offset : ℕ → ℕ
page_offset page_id = (file_header_size + page_id * page_size) % 2 ^ 64

-- db_file_name_.empty()
abbrev pub is_empty : Name → Bool
is_empty [] = true
is_empty (_ ∷ _) = false

-- The descriptor of the open file, or none.
pub ready : DiskManager → Option ℕ
ready dm = if dm.is_open then dm.db_file_descriptor else none

-- What `ReadPage` makes of the bytes that it read, before it verifies them. The loop over the slots
-- trusts the slot count that was read: for a count above 1024 the C++ loop reads entries before the
-- buffer, which the model, whose memory is total, gives some bytes. A property that is about bytes not
-- yet verified bounds the count.
unfoldable pub load_page : Memory → Memory
load_page m =
    let m' =
      with_header
        (λ h. record h { deleted_tuple_count = 0; fragmented_bytes = 0; is_dirty = false }) m in
    recompute_from (header m').slot_count 0 m'

-- What `WritePage` makes of the buffer, before it writes it.
unfoldable pub store_page : Memory → Memory
store_page m =
    let m' =
      with_header
        (λ h. record h { deleted_tuple_count = 0; fragmented_bytes = 0; is_dirty = false }) m in
    with_header (λ h. record h { checksum = view_compute_checksum (some m') }) m'

-- The end of `ReadPage`, by what `pread` returned.
pub finish_read : Memory → Memory → Option ℕ → PageBuffer × Outcome (Unit {0})
finish_read buffer bytes none = (some buffer, throws read_failed)
finish_read buffer bytes (some n) =
    let m = memcpy buffer 0 bytes 0 n in
    if not (n == page_size)
    then (some m, throws read_failed)
    else if view_verify_checksum (some (load_page m))
    then (some (load_page m), returns tt)
    else (some (load_page m), throws checksum_failed)

module _ (F : Files) where
  open F use {Disk, exists_file, open_file, close_file, pread, pwrite, fsync}

  -- The end of `OpenDBFile` for a new file, by what `pwrite` returned.
  pub finish_create : DiskManager → Disk → ℕ → Option ℕ → DiskManager × Disk × Outcome ErrorCode
  finish_create dm disk fd none =
      (record dm { db_file_descriptor = none }, close_file disk fd, throws header_write_failed)
  finish_create dm disk fd (some n) =
      if n == file_header_size
      then (
        record dm { db_file_descriptor = some fd; is_open = true },
        (fsync disk fd).0,
        returns error_already_open,
      )
      else (record dm { db_file_descriptor = none }, close_file disk fd, throws header_write_failed)

  -- A file that did not exist, open as `fd`.
  pub create_db_file : DiskManager → Disk → ℕ → DiskManager × Disk × Outcome ErrorCode
  create_db_file dm disk fd =
      let h = new_file_header dm.file_header in
      let (disk', written) = pwrite disk fd h file_header_size 0 in
      finish_create (record dm { file_header = h; next_page_id = 1 }) disk' fd written

  -- The end of `OpenDBFile` for a file that exists, by what `pread` returned.
  pub finish_load :
      DiskManager → Disk → ℕ → Memory → Option ℕ → DiskManager × Disk × Outcome ErrorCode
  finish_load dm disk fd bytes none =
      (record dm { db_file_descriptor = none }, close_file disk fd, throws header_read_failed)
  finish_load dm disk fd bytes (some n) =
      let h = memcpy dm.file_header 0 bytes 0 n in
      if not (n == file_header_size)
      then (
        record dm { db_file_descriptor = none; file_header = h },
        close_file disk fd,
        throws header_read_failed,
      )
      else if not (magic_number h == stor)
      then (
        record dm { db_file_descriptor = none; file_header = h },
        close_file disk fd,
        throws invalid_format,
      )
      else (
        record dm {
          db_file_descriptor = some fd;
          file_header = h;
          next_page_id = stored_next_page_id h;
          is_open = true;
        },
        disk,
        returns error_already_open,
      )

  -- A file that exists, open as `fd`.
  pub load_db_file : DiskManager → Disk → ℕ → DiskManager × Disk × Outcome ErrorCode
  load_db_file dm disk fd =
      let (bytes, read) = pread disk fd file_header_size 0 in finish_load dm disk fd bytes read

  -- `OpenDBFile` after `open`, by the descriptor.
  pub opened_db_file : DiskManager → Disk → Bool → Option ℕ → DiskManager × Disk × Outcome ErrorCode
  opened_db_file dm disk file_exists none =
      (record dm { db_file_descriptor = none }, disk, throws open_failed)
  opened_db_file dm disk true (some fd) = load_db_file dm disk fd
  opened_db_file dm disk false (some fd) = create_db_file dm disk fd

  pub open_db_file : DiskManager → Disk → DiskManager × Disk × Outcome ErrorCode
  open_db_file dm disk =
      if dm.is_open
      then (dm, disk, returns error_already_open)
      else if is_empty dm.db_file_name
      then (dm, disk, returns error_invalid_filename)
      else let file_exists = exists_file disk dm.db_file_name in
        let (disk', descriptor) = open_file disk dm.db_file_name in
        opened_db_file dm disk' file_exists descriptor

  -- The constructor, which calls `OpenDBFile`; `raw` is what the header's memory holds.
  pub disk_manager : Name → Memory → Disk → DiskManager × Disk × Outcome ErrorCode
  disk_manager name raw disk =
      open_db_file
        (record {
          db_file_name = name;
          db_file_descriptor = none;
          next_page_id = 0;
          is_open = false;
          file_header = raw;
        })
        disk

  -- `CloseDBFile`, by the descriptor of the open file.
  pub close_ready : DiskManager → Disk → Option ℕ → DiskManager × Disk
  close_ready dm disk none = (dm, disk)
  close_ready dm disk (some fd) =
      let h = store 4 8 dm.next_page_id dm.file_header in
      (
        record dm { file_header = h; db_file_descriptor = none; is_open = false },
        close_file (fsync (pwrite disk fd h file_header_size 0).0 fd).0 fd,
      )

  -- Also the destructor.
  pub close_db_file : DiskManager → Disk → DiskManager × Disk
  close_db_file dm disk = close_ready dm disk (ready dm)

  pub read_ready : Disk → ℕ → PageBuffer → Option ℕ → PageBuffer × Outcome (Unit {0})
  read_ready disk page_id page_data none = (page_data, throws file_not_open)
  read_ready disk page_id none (some fd) = (none, throws null_page_data)
  read_ready disk page_id (some buffer) (some fd) =
      let (bytes, read) = pread disk fd page_size (page_offset page_id) in
      finish_read buffer bytes read

  -- The buffer after the call, and the exception if there is one.
  pub read_page : DiskManager → Disk → ℕ → PageBuffer → PageBuffer × Outcome (Unit {0})
  read_page dm disk page_id page_data = read_ready disk page_id page_data (ready dm)

  -- The end of `WritePage`, by what `pwrite` returned.
  pub finish_write : Disk → ℕ → Memory → Option ℕ → Disk × PageBuffer × Outcome (Unit {0})
  finish_write disk fd m none = (disk, some m, throws write_failed)
  finish_write disk fd m (some n) =
      if n == page_size
      then ((fsync disk fd).0, some m, returns tt)
      else (disk, some m, throws write_failed)

  pub write_ready : Disk → ℕ → PageBuffer → Option ℕ → Disk × PageBuffer × Outcome (Unit {0})
  write_ready disk page_id page_data none = (disk, page_data, throws file_not_open)
  write_ready disk page_id none (some fd) = (disk, none, throws null_page_data)
  write_ready disk page_id (some buffer) (some fd) =
      let m = store_page buffer in
      let (disk', written) = pwrite disk fd m page_size (page_offset page_id) in
      finish_write disk' fd m written

  pub write_page : DiskManager → Disk → ℕ → PageBuffer → Disk × PageBuffer × Outcome (Unit {0})
  write_page dm disk page_id page_data = write_ready disk page_id page_data (ready dm)

-- `next_page_id_++` is a 32-bit sum.
pub allocate_page : DiskManager → DiskManager × Outcome ℕ
allocate_page dm =
    if dm.is_open
    then (
      record dm {
        next_page_id = (dm.next_page_id + 1) % 2 ^ 32;
        file_header = store 4 520 (stored_page_count dm.file_header + 1) dm.file_header;
      },
      returns dm.next_page_id,
    )
    else (dm, throws file_not_open)

-- It changes nothing.
pub deallocate_page : DiskManager → ℕ → Outcome (Unit {0})
deallocate_page dm page_id = if dm.is_open then returns tt else throws file_not_open

-- IsOpen
abbrev pub db_is_open : DiskManager → Bool
db_is_open dm = dm.is_open

pub disk_compute_checksum : Memory → ℕ → ℕ
disk_compute_checksum data_bytes length = Checksum.compute data_bytes length
