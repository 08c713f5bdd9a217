-- ===== src/FreeSpace/Store.antt =====
-- src/storage/free_space_map.cpp: the file of the free space map, over the system calls on files.
-- The code keeps the map, the descriptor and `is_initialized_` in one object, `FsmStore` here.
use storage_prototype.Common.{
  ℕ, zero, suc, ◌+◌, ◌*◌, ◌%◌, ◌^◌, min, Bool, true, false, not, ◌&&◌, ◌||◌, ltb, ◌==◌,
  if◌then◌else◌, Option, none, some, List, [], ◌∷◌, ◌++◌, length, get_or,
}
use storage_prototype.Memory.{Memory, load, store, byte_at}
use storage_prototype.Files.{Files}
use storage_prototype.Schema.{Name}
use storage_prototype.FreeSpace.{FreeSpaceMap, empty_map, insert_page}
pub mod Chunks
pub mod Arrays
pub mod Format
pub mod Reload
pub mod Maintained

-- FSM_MAGIC_NUMBER
abbrev pub fsm_magic : ℕ
fsm_magic = 0x46534D00

pub record FsmStore : Type 0 where
  pub fsm_file_name : Name
  pub fsm_fd : Option ℕ
  pub fsm : FreeSpaceMap
  pub is_initialized : Bool

-- The constructor.
abbrev pub fsm_store : Name → FsmStore
fsm_store name = record {
  fsm_file_name = name;
  fsm_fd = none;
  fsm = record empty_map { is_dirty = false };
  is_initialized = false;
}

-- What one `pwrite` of `WriteToDisk` writes.
pub record Chunk : Type 0 where
  pub content : Memory
  pub size : ℕ
  pub place : ℕ

-- A `uint32_t` in memory.
abbrev pub word : ℕ → Memory
word v = store 4 0 v (λ _. 0)

-- The page ids as an array, from index `i` on.
unfoldable pub store_ids : List ℕ → ℕ → Memory
store_ids [] i = λ _. 0
store_ids (p ∷ ps) i = store 4 (i * 4) p (store_ids ps (i + 1))

-- allocated_count
pub allocated_count : FreeSpaceMap → ℕ
allocated_count m = length m.allocated_pages % 2 ^ 32

pub id_chunk : FreeSpaceMap → List Chunk
id_chunk m =
    if allocated_count m == 0
    then []
    else record {
      content = store_ids m.allocated_pages 0;
      size = allocated_count m * 4;
      place = 12;
    }
      ∷ []

pub category_chunk : FreeSpaceMap → List Chunk
category_chunk m =
    if ltb 0 m.page_count && ltb 0 (length m.fsm_cache)
    then record {
      content = λ k. get_or m.fsm_cache k 0;
      size = min m.page_count (length m.fsm_cache);
      place = 12 + allocated_count m * 4;
    }
      ∷ []
    else []

-- The writes of `WriteToDisk`, in order.
pub chunks : FreeSpaceMap → List Chunk
chunks m =
    record { content = word fsm_magic; size = 4; place = 0 }
    ∷ record { content = word m.page_count; size = 4; place = 4 }
    ∷ record { content = word (allocated_count m); size = 4; place = 8 }
    ∷ (id_chunk m ++ category_chunk m)

-- Where the last of them ends.
pub end_offset : FreeSpaceMap → ℕ
end_offset m =
    12
    + allocated_count m * 4
    + (if ltb 0 m.page_count && ltb 0 (length m.fsm_cache)
        then min m.page_count (length m.fsm_cache)
        else 0)

-- A call returned the count that was asked for.
abbrev pub in_full : Option ℕ → ℕ → Bool
in_full none n = false
in_full (some k) n = k == n

-- The page ids of an array, from index `i` on.
unfoldable pub id_list : ℕ → ℕ → Memory → List ℕ
id_list zero i b = []
id_list (suc n) i b = load 4 (i * 4) b ∷ id_list n (i + 1) b

-- `n` bytes from index `i` on.
unfoldable pub byte_list : ℕ → ℕ → Memory → List ℕ
byte_list zero i b = []
byte_list (suc n) i b = byte_at b i ∷ byte_list n (i + 1) b

-- allocated_pages_.insert for each of them in turn.
unfoldable pub insert_all : List ℕ → List ℕ → List ℕ
insert_all [] ps = ps
insert_all (q ∷ qs) ps = insert_all qs (insert_page q ps)

pub chain {ℓ} : {A B : Type ℓ} → Option A → (A → Option B) → Option B
chain none k = none
chain (some a) k = k a

module _ (F : Files) where
  open F use {Disk, open_file, close_file, file_size, pread, pwrite, ftruncate, fsync}

  -- Each write in turn, up to the first that is not done in full.
  unfoldable pub write_chunks : Disk → ℕ → List Chunk → Disk × Bool
  write_chunks disk fd [] = (disk, true)
  write_chunks disk fd (c ∷ cs) =
      let (disk', written) = pwrite disk fd c.content c.size c.place in
      let rest = write_chunks disk' fd cs in if in_full written c.size then rest else (disk', false)

  -- The result of `ftruncate` is not used.
  pub write_to_disk : FreeSpaceMap → Disk → Option ℕ → Disk × Bool
  write_to_disk m disk none = (disk, false)
  write_to_disk m disk (some fd) =
      let (disk', done) = write_chunks disk fd (chunks m) in
      if done then fsync (ftruncate disk' fd (end_offset m)).0 fd else (disk', false)

  pub fetch : Disk → ℕ → ℕ → ℕ → Option Memory
  fetch disk fd n offset =
      let (bytes, read) = pread disk fd n offset in if in_full read n then some bytes else none

  pub fetch_word : Disk → ℕ → ℕ → Option ℕ
  fetch_word disk fd offset = chain (fetch disk fd 4 offset) (λ b. some (load 4 0 b))

  -- The categories, after the ids.
  pub load_categories : FreeSpaceMap → Disk → ℕ → ℕ → ℕ → List ℕ → Option FreeSpaceMap
  load_categories m disk fd pages count ids =
      if pages == 0
      then some (record m { allocated_pages = ids; page_count = pages; is_dirty = false })
      else chain (fetch disk fd pages (12 + count * 4)) (λ b. some (record {
        fsm_cache = byte_list pages 0 b;
        allocated_pages = ids;
        page_count = pages;
        is_dirty = false;
      }))

  -- What follows the magic number.
  pub load_pages : FreeSpaceMap → Disk → ℕ → Option FreeSpaceMap
  load_pages m disk fd = chain (fetch_word disk fd 4) (λ pages.
      chain (fetch_word disk fd 8) (λ count.
        if count == 0
        then some (record m { page_count = pages })
        else chain (fetch disk fd (count * 4) 12)
            (λ b. load_categories m disk fd pages count (insert_all (id_list count 0 b) []))))

  -- None where the code returns false. What it has changed by then, `Initialize` overwrites.
  pub load_from_disk : FreeSpaceMap → Disk → Option ℕ → Option FreeSpaceMap
  load_from_disk m disk none = none
  load_from_disk m disk (some fd) = chain (file_size disk fd) (λ size.
      if ltb size 12
      then none
      else chain (fetch_word disk fd 0)
          (λ magic. if magic == fsm_magic then load_pages m disk fd else none))

  -- The map after `LoadFromDisk`.
  pub loaded_or_empty : Option FreeSpaceMap → FreeSpaceMap
  loaded_or_empty none = empty_map
  loaded_or_empty (some m) = m

  pub opened_fsm : FsmStore → Disk → Option ℕ → FsmStore × Disk × Bool
  opened_fsm s disk none = (record s { fsm_fd = none }, disk, false)
  opened_fsm s disk (some fd) = (
    record s {
      fsm_fd = some fd;
      fsm = loaded_or_empty (load_from_disk s.fsm disk (some fd));
      is_initialized = true;
    },
    disk,
    true,
  )

  -- Initialize
  pub initialize_fsm : FsmStore → Disk → FsmStore × Disk × Bool
  initialize_fsm s disk =
      if s.is_initialized
      then (s, disk, true)
      else let (disk', fd) = open_file disk s.fsm_file_name in opened_fsm s disk' fd

  -- Flush
  pub flush_fsm : FsmStore → Disk → FsmStore × Disk × Bool
  flush_fsm s disk =
      if not s.fsm.is_dirty
      then (s, disk, true)
      else let (disk', success) = write_to_disk s.fsm disk s.fsm_fd in
        if success
        then (record s { fsm = record s.fsm { is_dirty = false } }, disk', true)
        else (s, disk', false)

  pub close_descriptor : FsmStore → Disk → Option ℕ → FsmStore × Disk
  close_descriptor s disk none = (s, disk)
  close_descriptor s disk (some fd) = (record s { fsm_fd = none }, close_file disk fd)

  pub close_fsm_file : FsmStore → Disk → FsmStore × Disk
  close_fsm_file s disk = close_descriptor s disk s.fsm_fd

  -- The destructor.
  pub destroy_fsm : FsmStore → Disk → FsmStore × Disk
  destroy_fsm s disk =
      let (s', disk', _) =
        if s.is_initialized && s.fsm.is_dirty then flush_fsm s disk else (s, disk, true) in
      close_fsm_file s' disk'
