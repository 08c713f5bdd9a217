-- ===== src/PageManager/Bounds/Calls.antt =====
-- The methods on one page keep the bound on the cache.
use storage_prototype.Common.{
  ℕ, ◌≤◌, arith, Bool, true, false, ◌==◌, if◌then◌else◌, Option, none, some, length,
}
use storage_prototype.Memory.{Memory}
use storage_prototype.Files.{Files}
use storage_prototype.Page.Layout.{invalid_slot_id}
use storage_prototype.Page.Directory.{TupleId}
use storage_prototype.Page.Tuples.{delete_tuple}
use storage_prototype.Page.Compaction.{should_compact, compact_page}
use storage_prototype.FreeSpace.{invalid_page_id}
use storage_prototype.DiskManager.{Outcome, returns, throws, allocate_page}
use storage_prototype.PageManager.{
  PageManager, modify, succeeded, is_no_tuple, evict_page_if_needed, new_page, allocated_page,
  allocate_new_page, follow_page, follow_forwarding_chain_full, delete_on, delete_followed,
  manager_delete_tuple, compact_on, manager_compact_page,
}
use storage_prototype.PageManager.Bounds.{
  IsBounded, length-modify, length-cache_put, evict-length, get_page-IsBounded,
  update_fsm-IsBounded,
}

module _ (F : Files) (aligned_alloc : F.Disk → Option Memory) where
  open F use {Disk}

  abbrev Bounded : PageManager Disk → Type 0
  Bounded s = IsBounded F aligned_alloc s

  -- A test whose branches are both bounded.
  pub either-IsBounded :
      {A : Type 0} (b : Bool) (x y : PageManager Disk × A)
      → Bounded x.0
      → Bounded y.0
      → Bounded (if b then x else y).0
  either-IsBounded true x y p q = p
  either-IsBounded false x y p q = q

  pub modify-IsBounded :
      (s : PageManager Disk) (id : ℕ) (m : Memory)
      → Bounded s
      → length (modify id m s.page_cache) ≤ 100
  modify-IsBounded s id m h = omega (arith, length-modify id m s.page_cache)

  new_page-IsBounded :
      (s : PageManager Disk) (id : ℕ) (o : Option Memory)
      → Bounded s
      → Bounded (new_page F aligned_alloc s id o).0
  unfolding new_page
  new_page-IsBounded s id none h = h
  new_page-IsBounded s id (some raw) h = update_fsm-IsBounded F aligned_alloc _ id _ (
      omega (
        arith,
        length-cache_put id _ (evict_page_if_needed F aligned_alloc s).page_cache,
        evict-length F aligned_alloc s h,
      ))

  allocated_page-IsBounded :
      (s : PageManager Disk) (o : Outcome ℕ)
      → Bounded s
      → Bounded (allocated_page F aligned_alloc s o).0
  unfolding allocated_page
  allocated_page-IsBounded s (throws e) h = h
  allocated_page-IsBounded s (returns id) h =
      either-IsBounded (id == invalid_page_id) _ _ h
        (new_page-IsBounded s id (aligned_alloc s.disk) h)

  pub allocate_new_page-IsBounded :
      (s : PageManager Disk) → Bounded s → Bounded (allocate_new_page F aligned_alloc s).0
  unfolding allocate_new_page
  allocate_new_page-IsBounded s h =
      allocated_page-IsBounded (record s { disk_manager = (allocate_page s.disk_manager).0 })
        (allocate_page s.disk_manager).1 h

  follow_page-IsBounded :
      (r : PageManager Disk × Option Memory) (id : ℕ)
      → Bounded r.0
      → Bounded (follow_page F aligned_alloc r id).0
  unfolding follow_page
  follow_page-IsBounded (s, none) id h = h
  follow_page-IsBounded (s, some m) id h = either-IsBounded _ _ _ h h

  pub follow_forwarding_chain_full-IsBounded :
      (s : PageManager Disk) (t : TupleId)
      → Bounded s
      → Bounded (follow_forwarding_chain_full F aligned_alloc s t).0
  unfolding follow_forwarding_chain_full
  follow_forwarding_chain_full-IsBounded s t h = either-IsBounded (t.page_id == 0) _ _ h (
      either-IsBounded (t.slot_id == invalid_slot_id) _ _ h
        (follow_page-IsBounded _ t.slot_id (get_page-IsBounded F aligned_alloc s t.page_id h)))

  delete_on-IsBounded :
      (r : PageManager Disk × Option Memory) (t : TupleId)
      → Bounded r.0
      → Bounded (delete_on F aligned_alloc r t).0
  unfolding delete_on
  delete_on-IsBounded (s, none) t h = h
  delete_on-IsBounded (s, some m) t h =
      let shrunk = modify-IsBounded s t.page_id (delete_tuple m t.slot_id).0 h in
      either-IsBounded (succeeded (delete_tuple m t.slot_id).1) _ _
        (update_fsm-IsBounded F aligned_alloc _ t.page_id _ shrunk) shrunk

  delete_followed-IsBounded :
      (r : PageManager Disk × TupleId) → Bounded r.0 → Bounded (delete_followed F aligned_alloc r).0
  unfolding delete_followed
  delete_followed-IsBounded (s, t) h =
      either-IsBounded (is_no_tuple t) _ _ h
        (delete_on-IsBounded _ t (get_page-IsBounded F aligned_alloc s t.page_id h))

  pub manager_delete_tuple-IsBounded :
      (s : PageManager Disk) (t : TupleId)
      → Bounded s
      → Bounded (manager_delete_tuple F aligned_alloc s t).0
  unfolding manager_delete_tuple
  manager_delete_tuple-IsBounded s t h =
      delete_followed-IsBounded _ (follow_forwarding_chain_full-IsBounded s t h)

  compact_on-IsBounded :
      (r : PageManager Disk × Option Memory) (id : ℕ)
      → Bounded r.0
      → Bounded (compact_on F aligned_alloc r id).0
  unfolding compact_on
  compact_on-IsBounded (s, none) id h = h
  compact_on-IsBounded (s, some m) id h =
      either-IsBounded (should_compact m) _ _
        (update_fsm-IsBounded F aligned_alloc _ id _ (modify-IsBounded s id (compact_page m) h)) h

  pub manager_compact_page-IsBounded :
      (s : PageManager Disk) (id : ℕ)
      → Bounded s
      → Bounded (manager_compact_page F aligned_alloc s id).0
  unfolding manager_compact_page
  manager_compact_page-IsBounded s id h =
      compact_on-IsBounded _ id (get_page-IsBounded F aligned_alloc s id h)
