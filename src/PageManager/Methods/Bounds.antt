-- ===== src/PageManager/Methods/Bounds.antt =====
-- `InsertTuple`, `GetTuple` and the flushes keep the bound on the cache.
use storage_prototype.Common.{
  ℕ, zero, suc, inl, inr, arith, not, ◌==◌, ltb, Bool-cases, Option, none, some, [], ◌∷◌,
}
use storage_prototype.Common.Int.{ErrorCode}
use storage_prototype.Memory.{Memory}
use storage_prototype.Files.{Files}
use storage_prototype.Page.Layout.{header, invalid_slot_id}
use storage_prototype.Page.Directory.{TupleId}
use storage_prototype.Page.Tuples.{insert_tuple}
use storage_prototype.Page.Compaction.{should_compact, compact_page}
use storage_prototype.FreeSpace.{invalid_page_id, find_page_with_space}
use storage_prototype.DiskManager.{Outcome, returns, throws}
use storage_prototype.PageManager.{PageManager, Cache, succeeded, is_no_tuple}
use storage_prototype.PageManager.Methods.{
  Attempt, placed, again, given_up, mark_full, place_on, insert_on, attempt_on, choose_page,
  next_attempt, attempts, manager_insert_tuple, get_on, get_followed, manager_get_tuple, flush_map,
  next_entry, flush_entries, flush_all_pages, clear_cache,
}
use storage_prototype.PageManager.Bounds.Calls.{
  either-IsBounded, modify-IsBounded, allocate_new_page-IsBounded,
  follow_forwarding_chain_full-IsBounded,
}
use storage_prototype.PageManager.Bounds.{
  IsBounded, flush_page-length, get_page-IsBounded, update_fsm-IsBounded,
}

module _ (F : Files) (aligned_alloc : F.Disk → Option Memory) where
  open F use {Disk}

  abbrev Bounded : PageManager Disk → Type 0
  Bounded s = IsBounded F aligned_alloc s

  insert_on-IsBounded :
      (r : PageManager Disk × Option Memory) (id : ℕ) (tuple : Memory) (size : ℕ)
      → Bounded r.0
      → Bounded (insert_on F aligned_alloc r id tuple size).0
  unfolding insert_on place_on mark_full
  insert_on-IsBounded (s, none) id tuple size h = h
  insert_on-IsBounded (s, some m) id tuple size h =
      let m1 = (insert_tuple m tuple size).0 in
      let m2 = (insert_tuple (compact_page m1) tuple size).0 in
      either-IsBounded F aligned_alloc (not ((insert_tuple m tuple size).1 == invalid_slot_id)) _ _
        (modify-IsBounded F aligned_alloc s id m1 h)
        (either-IsBounded F aligned_alloc (not (should_compact m1)) _ _
          (modify-IsBounded F aligned_alloc s id m1 h)
          (either-IsBounded F aligned_alloc
            (not ((insert_tuple (compact_page m1) tuple size).1 == invalid_slot_id)) _ _
            (modify-IsBounded F aligned_alloc s id m2 h)
            (modify-IsBounded F aligned_alloc s id m2 h)))

  attempt_on-IsBounded :
      (r : PageManager Disk × Outcome ℕ) (tuple : Memory) (size : ℕ)
      → Bounded r.0
      → Bounded (attempt_on F aligned_alloc r tuple size).0
  unfolding attempt_on
  attempt_on-IsBounded (s, throws e) tuple size h = h
  attempt_on-IsBounded (s, returns id) tuple size h =
      either-IsBounded F aligned_alloc (id == invalid_page_id) _ _ h
        (insert_on-IsBounded _ id tuple size (get_page-IsBounded F aligned_alloc s id h))

  pub choose_page-IsBounded :
      (s : PageManager Disk) (n : ℕ) → Bounded s → Bounded (choose_page F aligned_alloc s n).0
  unfolding choose_page
  choose_page-IsBounded s n h =
      either-IsBounded F aligned_alloc (find_page_with_space s.fsm.fsm n == invalid_page_id) _ _
        (allocate_new_page-IsBounded F aligned_alloc s h) h

  next_attempt-IsBounded :
      (rest : PageManager Disk → PageManager Disk × Outcome TupleId)
      → ((s : PageManager Disk) → Bounded s → Bounded (rest s).0)
      → (r : PageManager Disk × Outcome Attempt) → Bounded r.0
      → Bounded (next_attempt F aligned_alloc rest r).0
  unfolding next_attempt
  next_attempt-IsBounded rest k (s, throws e) h = h
  next_attempt-IsBounded rest k (s, returns given_up) h = h
  next_attempt-IsBounded rest k (s, returns again) h = k s h
  next_attempt-IsBounded rest k (s, returns (placed page_id slot_id page)) h =
      update_fsm-IsBounded F aligned_alloc s page_id page h

  attempts-IsBounded :
      (left : ℕ) (s : PageManager Disk) (tuple : Memory) (size : ℕ)
      → Bounded s
      → Bounded (attempts F aligned_alloc left s tuple size).0
  unfolding attempts
  attempts-IsBounded zero s tuple size h = h
  attempts-IsBounded (suc left) s tuple size h =
      next_attempt-IsBounded (λ s'. attempts F aligned_alloc left s' tuple size)
        (λ s' h'. attempts-IsBounded left s' tuple size h') _
        (attempt_on-IsBounded _ tuple size (choose_page-IsBounded s _ h))

  pub manager_insert_tuple-IsBounded :
      (s : PageManager Disk) (tuple : Option Memory) (size : ℕ)
      → Bounded s
      → Bounded (manager_insert_tuple F aligned_alloc s tuple size).0
  unfolding manager_insert_tuple
  manager_insert_tuple-IsBounded s none size h = h
  manager_insert_tuple-IsBounded s (some tuple) size h =
      either-IsBounded F aligned_alloc (size == 0) _ _ h (
        either-IsBounded F aligned_alloc (ltb 8144 size) _ _ h
          (attempts-IsBounded 3 s tuple size h))

  get_on-IsBounded :
      (r : PageManager Disk × Option Memory) (id : ℕ) (buffer : Memory) (size : ℕ)
      → Bounded r.0
      → Bounded (get_on F aligned_alloc r id buffer size).0
  unfolding get_on
  get_on-IsBounded (s, none) id buffer size h = h
  get_on-IsBounded (s, some m) id buffer size h = h

  get_followed-IsBounded :
      (r : PageManager Disk × TupleId) (buffer : Memory) (size : ℕ)
      → Bounded r.0
      → Bounded (get_followed F aligned_alloc r buffer size).0
  unfolding get_followed
  get_followed-IsBounded (s, t) buffer size h = elim (Bool-cases (is_no_tuple t)) [
    | inl nothing ↦ rw nothing h
    | inr found ↦ rw found (
        get_on-IsBounded _ t.slot_id buffer size (get_page-IsBounded F aligned_alloc s t.page_id h))
  ]

  pub manager_get_tuple-IsBounded :
      (s : PageManager Disk) (t : TupleId) (buffer : Option Memory) (size : ℕ)
      → Bounded s
      → Bounded (manager_get_tuple F aligned_alloc s t buffer size).0
  unfolding manager_get_tuple
  manager_get_tuple-IsBounded s t none size h = h
  manager_get_tuple-IsBounded s t (some buffer) size h = elim (Bool-cases (size == 0)) [
    | inl nothing ↦ rw nothing h
    | inr some_size ↦ rw some_size (
        get_followed-IsBounded _ buffer size
          (follow_forwarding_chain_full-IsBounded F aligned_alloc s t h))
  ]

  next_entry-IsBounded :
      (rest : PageManager Disk → PageManager Disk × ErrorCode)
      → ((s : PageManager Disk) → Bounded s → Bounded (rest s).0)
      → (r : PageManager Disk × ErrorCode) → Bounded r.0
      → Bounded (next_entry F aligned_alloc rest r).0
  unfolding next_entry
  next_entry-IsBounded rest k (s, code) h =
      either-IsBounded F aligned_alloc (succeeded code) _ _ (k s h) h

  flush_entries-IsBounded :
      (cache : Cache) (s : PageManager Disk)
      → Bounded s
      → Bounded (flush_entries F aligned_alloc cache s).0
  unfolding flush_entries flush_map
  flush_entries-IsBounded [] s h = h
  flush_entries-IsBounded (e ∷ cache) s h =
      either-IsBounded F aligned_alloc (header e.1).is_dirty _ _
        (next_entry-IsBounded (flush_entries F aligned_alloc cache) (flush_entries-IsBounded cache)
          _ (omega (arith, flush_page-length F aligned_alloc s e.0)))
        (flush_entries-IsBounded cache s h)

  pub flush_all_pages-IsBounded :
      (s : PageManager Disk) → Bounded s → Bounded (flush_all_pages F aligned_alloc s).0
  unfolding flush_all_pages
  flush_all_pages-IsBounded s h = flush_entries-IsBounded s.page_cache s h

  pub clear_cache-IsBounded : (s : PageManager Disk) → Bounded (clear_cache F aligned_alloc s)
  unfolding clear_cache
  clear_cache-IsBounded s = omega arith
