-- ===== src/PageManager/History.antt =====
-- The states that a `PageManager` goes through: made with an empty cache, then changed by its public
-- methods in any order.
use storage_prototype.Common.{ℕ, ◌≤◌, arith, Option, []}
use storage_prototype.Memory.{Memory}
use storage_prototype.Files.{Files}
use storage_prototype.Page.Directory.{TupleId}
use storage_prototype.FreeSpace.Store.{FsmStore}
use storage_prototype.DiskManager.{DiskManager}
use storage_prototype.PageManager.{PageManager, manager_delete_tuple, manager_compact_page}
use storage_prototype.PageManager.Methods.{
  manager_insert_tuple, manager_get_tuple, flush_all_pages, clear_cache, get_cache_size,
}
use storage_prototype.PageManager.Update.{manager_update_tuple}
use storage_prototype.PageManager.Update.Bounds.{manager_update_tuple-IsBounded}
use storage_prototype.PageManager.Bounds.{IsBounded}
use storage_prototype.PageManager.Bounds.Calls.{
  manager_delete_tuple-IsBounded, manager_compact_page-IsBounded,
}
use storage_prototype.PageManager.Methods.Bounds.{
  manager_insert_tuple-IsBounded, manager_get_tuple-IsBounded, flush_all_pages-IsBounded,
  clear_cache-IsBounded,
}

module _ (F : Files) (aligned_alloc : F.Disk → Option Memory) where
  open F use {Disk}

  pub data Step (s : PageManager Disk) : PageManager Disk → Type 0 where
    inserts :
        (tuple : Option Memory) (size : ℕ)
        → Step s (manager_insert_tuple F aligned_alloc s tuple size).0
    gets :
        (t : TupleId) (buffer : Option Memory) (size : ℕ)
        → Step s (manager_get_tuple F aligned_alloc s t buffer size).0
    updates :
        (t : TupleId) (new_data : Option Memory) (size : ℕ)
        → Step s (manager_update_tuple F aligned_alloc s t new_data size).0
    deletes : (t : TupleId) → Step s (manager_delete_tuple F aligned_alloc s t).0
    compacts : (id : ℕ) → Step s (manager_compact_page F aligned_alloc s id).0
    flushes : Step s (flush_all_pages F aligned_alloc s).0
    clears : Step s (clear_cache F aligned_alloc s)

  pub data Run : PageManager Disk → Type 0 where
    started :
        (dm : DiskManager) (st : FsmStore) (disk : Disk)
        → Run (record { disk_manager = dm; fsm = st; page_cache = []; disk = disk })
    continued : {s s' : PageManager Disk} → Run s → Step s s' → Run s'

  Step-IsBounded :
      {s s' : PageManager Disk}
      → Step s s'
      → IsBounded F aligned_alloc s
      → IsBounded F aligned_alloc s'
  Step-IsBounded {s} (inserts tuple size) h =
      manager_insert_tuple-IsBounded F aligned_alloc s tuple size h
  Step-IsBounded {s} (gets t buffer size) h =
      manager_get_tuple-IsBounded F aligned_alloc s t buffer size h
  Step-IsBounded {s} (updates t new_data size) h =
      manager_update_tuple-IsBounded F aligned_alloc s t new_data size h
  Step-IsBounded {s} (deletes t) h = manager_delete_tuple-IsBounded F aligned_alloc s t h
  Step-IsBounded {s} (compacts id) h = manager_compact_page-IsBounded F aligned_alloc s id h
  Step-IsBounded {s} flushes h = flush_all_pages-IsBounded F aligned_alloc s h
  Step-IsBounded {s} clears h = clear_cache-IsBounded F aligned_alloc s

  Run-IsBounded : {s : PageManager Disk} → Run s → IsBounded F aligned_alloc s
  Run-IsBounded (started dm st disk) = omega arith
  Run-IsBounded (continued r s) = Step-IsBounded s (Run-IsBounded r)

  -- From an empty cache on, through insertions, look-ups, updates, deletions, compactions, flushes and clearings
  -- with any arguments, in any order, and with any results of the system calls and of the allocator,
  -- `GetCacheSize` is never above 100.
  pub get_cache_size_lem : {s : PageManager Disk} → Run s → get_cache_size F aligned_alloc s ≤ 100
  get_cache_size_lem r = Run-IsBounded r
