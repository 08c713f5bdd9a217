-- ===== src/Files.antt =====
-- The system calls that src/storage/disk_manager.cpp and src/storage/free_space_map.cpp make on files:
-- operations on an unknown disk, and what the code relies on of them.
use storage_prototype.Common.{ℕ, ◌+◌, ◌≤◌, ◌<◌, ◌≡◌, ◌⊎◌, Bool, true, Option, none, some}
use storage_prototype.Memory.{Memory}
use storage_prototype.Memory.Frame.{Apart}
use storage_prototype.Schema.{Name}
pub mod OneFile

pub record Files : Type 1 where
  pub Disk : Type 0
  -- stat(name) == 0
  pub exists_file : Disk → Name → Bool
  -- open(name, O_RDWR | O_CREAT, …): the descriptor, or none for a negative one.
  pub open_file : Disk → Name → Disk × Option ℕ
  pub close_file : Disk → ℕ → Disk
  -- lseek(fd, 0, SEEK_END)
  pub file_size : Disk → ℕ → Option ℕ
  -- pread(fd, …, n, offset): the bytes, and the number of them, or none for -1.
  pub pread : Disk → ℕ → ℕ → ℕ → Memory × Option ℕ
  -- pwrite(fd, bytes, n, offset)
  pub pwrite : Disk → ℕ → Memory → ℕ → ℕ → Disk × Option ℕ
  -- ftruncate(fd, size) and fsync(fd): whether they succeeded.
  pub ftruncate : Disk → ℕ → ℕ → Disk × Bool
  pub fsync : Disk → ℕ → Disk × Bool

module _ (F : Files) where
  open F use {Disk, exists_file, open_file, close_file, file_size, pread, pwrite, ftruncate, fsync}

  -- `n` bytes can be read at `offset`, and are those of `b`.
  abbrev pub Reads : Disk → ℕ → ℕ → ℕ → Memory → Type 0
  Reads d fd n offset b =
      ((pread d fd n offset).1 ≡ some n) × ((k : ℕ) → k < n → (pread d fd n offset).0 k ≡ b k)

  pub record IsLawful : Type 1 where
    -- The descriptor stands for the file of that name.
    pub Opened : Disk → Name → ℕ → Type 0
    pub open-Opened :
        (d : Disk) (name : Name) (fd : ℕ)
        → (open_file d name).1 ≡ some fd
        → Opened (open_file d name).0 name fd
    pub pwrite-Opened :
        (d : Disk) (name : Name) (fd : ℕ) (b : Memory) (n offset : ℕ)
        → Opened d name fd
        → Opened (pwrite d fd b n offset).0 name fd
    pub ftruncate-Opened :
        (d : Disk) (name : Name) (fd size : ℕ)
        → Opened d name fd
        → Opened (ftruncate d fd size).0 name fd
    pub fsync-Opened :
        (d : Disk) (name : Name) (fd : ℕ) → Opened d name fd → Opened (fsync d fd).0 name fd
    pub exists-close :
        (d : Disk) (name : Name) (fd : ℕ)
        → Opened d name fd
        → exists_file (close_file d fd) name ≡ true
    -- What was written in full is read back.
    pub pread-pwrite_self :
        (d : Disk) (fd : ℕ) (b : Memory) (n offset : ℕ)
        → (pwrite d fd b n offset).1 ≡ some n
        → Reads (pwrite d fd b n offset).0 fd n offset b
    -- A write leaves the bytes before and behind it.
    pub pread-pwrite-Apart :
        (d : Disk) (fd : ℕ) (b : Memory) (n offset : ℕ)
        → (pwrite d fd b n offset).1 ≡ some n
        → (n' offset' : ℕ) (b' : Memory) → Apart offset' n' offset n
        → Reads d fd n' offset' b'
        → Reads (pwrite d fd b n offset).0 fd n' offset' b'
    pub pread-fsync :
        (d : Disk) (fd n offset : ℕ) (b : Memory)
        → Reads d fd n offset b
        → Reads (fsync d fd).0 fd n offset b
    pub pread-ftruncate :
        (d : Disk) (fd size n offset : ℕ) (b : Memory)
        → offset + n ≤ size
        → Reads d fd n offset b
        → Reads (ftruncate d fd size).0 fd n offset b
    -- What the file holds outlives the descriptor.
    pub pread-reopen :
        (d : Disk) (name : Name) (fd fd' n offset : ℕ) (b : Memory)
        → Opened d name fd
        → (open_file (close_file d fd) name).1 ≡ some fd'
        → Reads d fd n offset b
        → Reads (open_file (close_file d fd) name).0 fd' n offset b
    -- Bytes that can be read lie within the file.
    pub file_size-pread :
        (d : Disk) (fd n offset : ℕ) (b : Memory)
        → 0 < n
        → Reads d fd n offset b
        → (size : ℕ) × (file_size d fd ≡ some size) × (offset + n ≤ size)
