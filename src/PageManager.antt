-- ===== src/PageManager.antt =====
-- include/storage/page_manager.h, src/storage/page_manager.cpp: class `PageManager`, the cache of pages
-- over the disk manager and the free space map. Each public method holds `cache_mutex_` throughout and
-- is one step. `page_cache_` is the list of its entries in the order that iteration visits them, which
-- is the library's own choice; a new entry comes last. A `Page*` is the id that the page has in the
-- cache: what a method does through the pointer, it does to that entry.
pub mod Methods
pub mod Update
pub mod Bounds
pub mod History
pub mod Flush
use storage_prototype.Common.{
  ℕ, zero, suc, ◌+◌, ◌-◌, ◌*◌, ◌%◌, ◌^◌, Bool, true, false, not, ◌&&◌, ltb, leb, ◌==◌,
  if◌then◌else◌, Option, none, some, List, [], ◌∷◌, length,
}
use storage_prototype.Common.Int.{ErrorCode, pos, negsuc, success, failure}
use storage_prototype.Memory.{Memory, memcpy, poke}
use storage_prototype.Files.{Files}
use storage_prototype.Page.Layout.{
  PageHeader, header, with_header, slot, page_size, header_size, slot_entry_size, invalid_slot_id,
}
use storage_prototype.Page.Image.{create_new, compute_checksum}
use storage_prototype.Page.Directory.{TupleId, is_slot_valid}
use storage_prototype.Page.Tuples.{insert_tuple, delete_tuple}
use storage_prototype.Page.Compaction.{should_compact, compact_page}
use storage_prototype.Page.Chain.{no_tuple, follow_hops}
use storage_prototype.Page.Object.{PageBuffer, page_verify_checksum}
use storage_prototype.FreeSpace.{invalid_page_id, update_page_free_space, find_page_with_space}
use storage_prototype.FreeSpace.Store.{FsmStore, initialize_fsm}
use storage_prototype.DiskManager.{
  DiskManager, Exception, Outcome, returns, throws, read_page, write_page, allocate_page,
}

abbrev pub max_cache_size : ℕ
max_cache_size = 100

-- page_cache_
abbrev pub Cache : Type 0
Cache = List (ℕ × Memory)

-- The objects that the manager points to are part of its state, and the disk below them.
pub record PageManager (Disk : Type 0) : Type 0 where
  pub disk_manager : DiskManager
  pub fsm : FsmStore
  pub page_cache : Cache
  pub disk : Disk

-- page_cache_.find
unfoldable pub find : ℕ → Cache → Option Memory
find id [] = none
find id (e ∷ cache) = let rest = find id cache in if e.0 == id then some e.1 else rest

-- page_cache_[id] = page
unfoldable pub cache_put : ℕ → Memory → Cache → Cache
cache_put id m [] = (id, m) ∷ []
cache_put id m (e ∷ cache) =
    let rest = cache_put id m cache in if e.0 == id then (id, m) ∷ cache else e ∷ rest

-- What a method does to the page through its pointer.
unfoldable pub modify : ℕ → Memory → Cache → Cache
modify id m [] = []
modify id m (e ∷ cache) =
    let rest = modify id m cache in if e.0 == id then (id, m) ∷ cache else e ∷ rest

-- The cache without its first clean page, if there is one.
unfoldable pub drop_clean : Cache → Option Cache
drop_clean [] = none
drop_clean (e ∷ cache) =
    let rest = drop_clean cache in
    if not (header e.1).is_dirty
    then some cache
    else elim rest [ none ↦ none | some c ↦ some (e ∷ c) ]

pub drop_first : Cache → Cache
drop_first [] = []
drop_first (e ∷ cache) = cache

-- result.code == 0
pub succeeded : ErrorCode → Bool
succeeded (pos n) = n == 0
succeeded (negsuc n) = false

-- The answer of `InsertTuple` when it fails.
abbrev pub not_inserted : TupleId
not_inserted = record { page_id = 0; slot_id = invalid_slot_id }

-- tuple_id.page_id == 0 && tuple_id.slot_id == 0
pub is_no_tuple : TupleId → Bool
is_no_tuple t = (t.page_id == 0) && (t.slot_id == 0)

-- `aligned_alloc` gives any bytes or a null pointer, by the state of the machine.
module _ (F : Files) (aligned_alloc : F.Disk → Option Memory) where
  open F use {Disk}

  -- The end of `FlushPage`, by what `WritePage` did.
  pub finish_flush :
      PageManager Disk → ℕ → Disk × PageBuffer × Outcome (Unit {0}) → PageManager Disk × ErrorCode
  finish_flush s id (disk, none, o) = (record s { disk = disk }, failure 2)
  finish_flush s id (disk, some m, returns u) =
      (record s { disk = disk; page_cache = modify id m s.page_cache }, success)
  finish_flush s id (disk, some m, throws e) =
      (record s { disk = disk; page_cache = modify id m s.page_cache }, failure 2)

  pub flush_found : PageManager Disk → ℕ → Option Memory → PageManager Disk × ErrorCode
  flush_found s id none = (s, success)
  flush_found s id (some m) =
      let m' = with_header (λ h. record h { checksum = compute_checksum m }) m in
      let flushed = finish_flush s id (write_page F s.disk_manager s.disk id (some m')) in
      if (header m).is_dirty then flushed else (s, success)

  pub flush_page : PageManager Disk → ℕ → PageManager Disk × ErrorCode
  flush_page s id = flush_found s id (find id s.page_cache)

  -- The second half of `EvictPageIfNeeded`: the first page goes, flushed or not.
  pub evict_first : PageManager Disk → Cache → PageManager Disk
  evict_first s [] = s
  evict_first s (e ∷ cache) =
      let (s', _) = flush_page s e.0 in record s' { page_cache = drop_first s'.page_cache }

  pub evict_from : PageManager Disk → Option Cache → PageManager Disk
  evict_from s (some cache) = record s { page_cache = cache }
  evict_from s none = evict_first s s.page_cache

  pub evict_page_if_needed : PageManager Disk → PageManager Disk
  evict_page_if_needed s =
      if ltb (length s.page_cache) max_cache_size then s else evict_from s (drop_clean s.page_cache)

  -- The end of `GetPage`, by what `ReadPage` did.
  pub admit :
      PageManager Disk → ℕ → PageBuffer × Outcome (Unit {0}) → PageManager Disk × Option Memory
  admit s id (p, throws e) = (s, none)
  admit s id (none, returns u) = (s, none)
  admit s id (some m, returns u) =
      let s' = evict_page_if_needed s in
      if page_verify_checksum (some m)
      then (record s' { page_cache = cache_put id m s'.page_cache }, some m)
      else (s, none)

  pub load_new : PageManager Disk → ℕ → Option Memory → PageManager Disk × Option Memory
  load_new s id none = (s, none)
  load_new s id (some raw) =
      admit s id (read_page F s.disk_manager s.disk id (some (create_new raw)))

  pub get_found : PageManager Disk → ℕ → Option Memory → PageManager Disk × Option Memory
  get_found s id (some m) = (s, some m)
  get_found s id none = load_new s id (aligned_alloc s.disk)

  -- GetPage
  pub get_page : PageManager Disk → ℕ → PageManager Disk × Option Memory
  get_page s id = get_found s id (find id s.page_cache)

  -- GetFreeEnd() - GetFreeStart() in `uint16_t`
  pub update_fsm : PageManager Disk → ℕ → Memory → PageManager Disk
  update_fsm s id m =
      let h = header m in
      record s {
        fsm = record s.fsm {
          fsm = update_page_free_space s.fsm.fsm id ((h.free_end + 2 ^ 16 - h.free_start) % 2 ^ 16);
        };
      }

  -- `AllocateNewPage` with an id, by what `aligned_alloc` gave.
  pub new_page : PageManager Disk → ℕ → Option Memory → PageManager Disk × Outcome ℕ
  new_page s id none = (s, returns invalid_page_id)
  new_page s id (some raw) =
      let m = with_header (λ h. record h { page_id = id }) (create_new raw) in
      let s' = evict_page_if_needed s in
      (update_fsm (record s' { page_cache = cache_put id m s'.page_cache }) id m, returns id)

  pub allocated_page : PageManager Disk → Outcome ℕ → PageManager Disk × Outcome ℕ
  allocated_page s (throws e) = (s, throws e)
  allocated_page s (returns id) =
      let made = new_page s id (aligned_alloc s.disk) in
      if id == invalid_page_id then (s, returns invalid_page_id) else made

  pub allocate_new_page : PageManager Disk → PageManager Disk × Outcome ℕ
  allocate_new_page s =
      let (dm, o) = allocate_page s.disk_manager in
      allocated_page (record s { disk_manager = dm }) o

  -- FollowForwardingChain(slot_id) with its default of 10 hops, which are not negative.
  pub follow_page : PageManager Disk × Option Memory → ℕ → PageManager Disk × TupleId
  follow_page (s, none) slot_id = (s, no_tuple)
  follow_page (s, some m) slot_id =
      if leb (header m).slot_count slot_id then (s, no_tuple) else (s, follow_hops m slot_id 10)

  pub follow_forwarding_chain_full : PageManager Disk → TupleId → PageManager Disk × TupleId
  follow_forwarding_chain_full s t =
      let followed = follow_page (get_page s t.page_id) t.slot_id in
      if t.page_id == 0
      then (s, no_tuple)
      else if t.slot_id == invalid_slot_id
      then (s, no_tuple)
      else followed

  -- The end of `DeleteTuple`, on the page.
  pub delete_on : PageManager Disk × Option Memory → TupleId → PageManager Disk × ErrorCode
  delete_on (s, none) t = (s, failure 2)
  delete_on (s, some m) t =
      let (m', code) = delete_tuple m t.slot_id in
      let s' = record s { page_cache = modify t.page_id m' s.page_cache } in
      if succeeded code then (update_fsm s' t.page_id m', success) else (s', code)

  pub delete_followed : PageManager Disk × TupleId → PageManager Disk × ErrorCode
  delete_followed (s, t) =
      let deleted = delete_on (get_page s t.page_id) t in
      if is_no_tuple t then (s, failure 1) else deleted

  -- DeleteTuple
  pub manager_delete_tuple : PageManager Disk → TupleId → PageManager Disk × ErrorCode
  manager_delete_tuple s t = delete_followed (follow_forwarding_chain_full s t)

  -- CompactPage
  pub compact_on : PageManager Disk × Option Memory → ℕ → PageManager Disk × ErrorCode
  compact_on (s, none) id = (s, failure 1)
  compact_on (s, some m) id =
      let m' = compact_page m in
      if should_compact m
      then (update_fsm (record s { page_cache = modify id m' s.page_cache }) id m', success)
      else (s, success)

  pub manager_compact_page : PageManager Disk → ℕ → PageManager Disk × ErrorCode
  manager_compact_page s id = compact_on (get_page s id) id

  -- The constructor with both objects, none where it throws that the map cannot be initialized.
  pub page_manager : DiskManager → FsmStore → Disk → Option (PageManager Disk)
  page_manager dm st disk =
      let (st', disk', initialized) = initialize_fsm F st disk in
      if initialized
      then some (record { disk_manager = dm; fsm = st'; page_cache = []; disk = disk' })
      else none
