-- ===== src/PageManager/Methods.antt =====
-- src/storage/page_manager.cpp: `InsertTuple`, `GetTuple`, `FlushAllPages`, `ClearCache`.
pub mod Bounds
use storage_prototype.Common.{
  ℕ, zero, suc, ◌+◌, ◌-◌, ◌*◌, ◌%◌, ◌^◌, Bool, true, false, not, ◌&&◌, ltb, leb, ◌==◌,
  if◌then◌else◌, Option, none, some, List, [], ◌∷◌, length,
}
use storage_prototype.Common.Int.{ErrorCode, success, failure}
use storage_prototype.Memory.{Memory, memcpy, poke}
use storage_prototype.Files.{Files}
use storage_prototype.Page.Layout.{header, slot, slot_entry_size, invalid_slot_id}
use storage_prototype.Page.Directory.{TupleId, is_slot_valid}
use storage_prototype.Page.Tuples.{insert_tuple}
use storage_prototype.Page.Compaction.{should_compact, compact_page}
use storage_prototype.FreeSpace.{invalid_page_id, update_page_free_space, find_page_with_space}
use storage_prototype.FreeSpace.Store.{FsmStore, flush_fsm}
use storage_prototype.DiskManager.{Outcome, returns, throws}
use storage_prototype.PageManager.{
  PageManager, Cache, modify, succeeded, not_inserted, is_no_tuple, flush_page, get_page,
  update_fsm, allocate_new_page, follow_forwarding_chain_full,
}

-- How one attempt of `InsertTuple` ends: with the tuple on a page, to be tried again, or given up.
pub data Attempt : Type 0 where
  placed : (page_id slot_id : ℕ) (page : Memory) → Attempt
  again : Attempt
  given_up : Attempt

-- memcpy of the tuple and the zero behind it, where the buffer is longer.
pub copy_out : Memory → Memory → ℕ → ℕ → ℕ → Memory
copy_out buffer page offset size buffer_size =
    let copied = memcpy buffer 0 page offset size in
    if ltb size buffer_size then poke size 0 copied else copied

-- GetTupleFromSlot
pub get_tuple_from_slot : Memory → ℕ → Memory → ℕ → Memory × ErrorCode
get_tuple_from_slot page id buffer buffer_size =
    let e = slot page id in
    if not (is_slot_valid page id)
    then (buffer, failure 2)
    else if ltb buffer_size e.length
    then (buffer, failure 3)
    else (copy_out buffer page e.offset e.length buffer_size, success)

module _ (F : Files) (aligned_alloc : F.Disk → Option Memory) where
  open F use {Disk}

  -- The page as it is now in the cache, with no space left for the map.
  pub mark_full : PageManager Disk → ℕ → Memory → PageManager Disk
  mark_full s id m = record s {
    page_cache = modify id m s.page_cache;
    fsm = record s.fsm { fsm = update_page_free_space s.fsm.fsm id 0 };
  }

  pub place_on : PageManager Disk → ℕ → Memory → ℕ → PageManager Disk × Outcome Attempt
  place_on s id m slot_id =
      (record s { page_cache = modify id m s.page_cache }, returns (placed id slot_id m))

  -- An attempt on the page that was found.
  pub insert_on :
      PageManager Disk × Option Memory → ℕ → Memory → ℕ → PageManager Disk × Outcome Attempt
  insert_on (s, none) id tuple size = (s, returns given_up)
  insert_on (s, some m) id tuple size =
      let (m1, slot1) = insert_tuple m tuple size in
      let (m2, slot2) = insert_tuple (compact_page m1) tuple size in
      if not (slot1 == invalid_slot_id)
      then place_on s id m1 slot1
      else if not (should_compact m1)
      then (mark_full s id m1, returns again)
      else if not (slot2 == invalid_slot_id)
      then place_on s id m2 slot2
      else (mark_full s id m2, returns again)

  -- An attempt, given the id of the page, found or new.
  pub attempt_on : PageManager Disk × Outcome ℕ → Memory → ℕ → PageManager Disk × Outcome Attempt
  attempt_on (s, throws e) tuple size = (s, throws e)
  attempt_on (s, returns id) tuple size =
      let tried = insert_on (get_page F aligned_alloc s id) id tuple size in
      if id == invalid_page_id then (s, returns given_up) else tried

  -- The page with space, or a new one.
  pub choose_page : PageManager Disk → ℕ → PageManager Disk × Outcome ℕ
  choose_page s required_space =
      let id = find_page_with_space s.fsm.fsm required_space in
      let made = allocate_new_page F aligned_alloc s in
      if id == invalid_page_id then made else (s, returns id)

  -- What follows an attempt; `rest` are the attempts behind it.
  pub next_attempt :
      (PageManager Disk → PageManager Disk × Outcome TupleId)
      → PageManager Disk × Outcome Attempt
      → PageManager Disk × Outcome TupleId
  next_attempt rest (s, throws e) = (s, throws e)
  next_attempt rest (s, returns given_up) = (s, returns not_inserted)
  next_attempt rest (s, returns again) = rest s
  next_attempt rest (s, returns (placed page_id slot_id page)) = (
    update_fsm F aligned_alloc s page_id page,
    returns (record { page_id = page_id; slot_id = slot_id }),
  )

  -- The loop of `InsertTuple`, with `left` attempts to go.
  pub attempts : ℕ → PageManager Disk → Memory → ℕ → PageManager Disk × Outcome TupleId
  attempts zero s tuple size = (s, returns not_inserted)
  attempts (suc left) s tuple size =
      next_attempt (λ s'. attempts left s' tuple size)
        (attempt_on (choose_page s ((size + slot_entry_size) % 2 ^ 16)) tuple size)

  -- InsertTuple. `tuple_data` may be null.
  pub manager_insert_tuple :
      PageManager Disk → Option Memory → ℕ → PageManager Disk × Outcome TupleId
  manager_insert_tuple s none size = (s, returns not_inserted)
  manager_insert_tuple s (some tuple) size =
      let inserted = attempts 3 s tuple size in
      if size == 0
      then (s, returns not_inserted)
      else if ltb 8144 size
      then (s, returns not_inserted)
      else inserted

  pub get_on :
      PageManager Disk × Option Memory → ℕ → Memory → ℕ → PageManager Disk × Memory × ErrorCode
  get_on (s, none) slot_id buffer buffer_size = (s, buffer, failure 4)
  get_on (s, some m) slot_id buffer buffer_size =
      let (b, code) = get_tuple_from_slot m slot_id buffer buffer_size in (s, b, code)

  pub get_followed : PageManager Disk × TupleId → Memory → ℕ → PageManager Disk × Memory × ErrorCode
  get_followed (s, t) buffer buffer_size =
      let got = get_on (get_page F aligned_alloc s t.page_id) t.slot_id buffer buffer_size in
      if is_no_tuple t then (s, buffer, failure 3) else got

  -- GetTuple. `buffer` may be null.
  pub manager_get_tuple :
      PageManager Disk → TupleId → Option Memory → ℕ → PageManager Disk × Option Memory × ErrorCode
  manager_get_tuple s t none buffer_size = (s, none, failure 1)
  manager_get_tuple s t (some buffer) buffer_size =
      let (s', b, code) =
        get_followed (follow_forwarding_chain_full F aligned_alloc s t) buffer buffer_size in
      if buffer_size == 0 then (s, some buffer, failure 2) else (s', some b, code)

  -- The end of `FlushAllPagesInternal`.
  pub flush_map : PageManager Disk → PageManager Disk × ErrorCode
  flush_map s =
      let (st, disk, flushed) = flush_fsm F s.fsm s.disk in
      (record s { fsm = st; disk = disk }, if flushed then success else failure 1)

  -- What follows the flush of an entry; `rest` is the loop behind it.
  pub next_entry :
      (PageManager Disk → PageManager Disk × ErrorCode)
      → PageManager Disk × ErrorCode
      → PageManager Disk × ErrorCode
  next_entry rest (s, code) = let further = rest s in if succeeded code then further else (s, code)

  -- The loop of `FlushAllPagesInternal` over the entries that it has still to visit.
  pub flush_entries : Cache → PageManager Disk → PageManager Disk × ErrorCode
  flush_entries [] s = flush_map s
  flush_entries (e ∷ cache) s =
      let flushed = next_entry (flush_entries cache) (flush_page F aligned_alloc s e.0) in
      let rest = flush_entries cache s in if (header e.1).is_dirty then flushed else rest

  -- FlushAllPages, and the destructor.
  pub flush_all_pages : PageManager Disk → PageManager Disk × ErrorCode
  flush_all_pages s = flush_entries s.page_cache s

  abbrev pub get_cache_size : PageManager Disk → ℕ
  get_cache_size s = length s.page_cache

  pub clear_cache : PageManager Disk → PageManager Disk
  clear_cache s = let (s', _) = flush_all_pages s in record s' { page_cache = [] }
