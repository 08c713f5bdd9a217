-- ===== src/PageManager/Bounds.antt =====
-- The cache never holds more than `MAX_CACHE_SIZE` pages.
pub mod Calls
use storage_prototype.Common.{
  ℕ, zero, suc, ◌+◌, ◌-◌, ◌≤◌, ◌<◌, ◌≡◌, ◌⊎◌, inl, inr, refl, sym, ap, ◌∙◌, subst, arith, Bool,
  true, false, not, ltb, leb, ◌==◌, Bool-cases, lt-or-le, lt→ltb, le→ltb, if◌then◌else◌, Option,
  none, some, List, [], ◌∷◌, length,
}
use storage_prototype.Common.Int.{ErrorCode}
use storage_prototype.Memory.{Memory}
use storage_prototype.Files.{Files}
use storage_prototype.Page.Layout.{header}
use storage_prototype.Page.Directory.{TupleId}
use storage_prototype.Page.Image.{create_new}
use storage_prototype.Page.Object.{PageBuffer, page_verify_checksum}
use storage_prototype.DiskManager.{Outcome, returns, throws, write_page, read_page, allocate_page}
use storage_prototype.PageManager.{
  PageManager, Cache, find, cache_put, modify, drop_clean, drop_first, finish_flush, flush_found,
  flush_page, evict_first, evict_from, evict_page_if_needed, admit, load_new, get_found, get_page,
  update_fsm, new_page, allocated_page, allocate_new_page, follow_page,
  follow_forwarding_chain_full, delete_on, delete_followed, manager_delete_tuple, compact_on,
  manager_compact_page,
}

pub length-modify : (id : ℕ) (m : Memory) (c : Cache) → length (modify id m c) ≡ length c
unfolding modify
length-modify id m [] = refl
length-modify id m (e ∷ c) = elim (Bool-cases (e.0 == id)) [
  | inl same ↦ rw same refl
  | inr other ↦ rw other (ap suc (length-modify id m c))
]

pub length-cache_put : (id : ℕ) (m : Memory) (c : Cache) → length (cache_put id m c) ≤ length c + 1
unfolding cache_put
length-cache_put id m [] = omega arith
length-cache_put id m (e ∷ c) = elim (Bool-cases (e.0 == id)) [
  | inl same ↦ rw same (omega arith)
  | inr other ↦ rw other (omega (arith, length-cache_put id m c))
]

-- The first clean page goes, or there is none.
Shorter : Option Cache → ℕ → Type 0
Shorter none n = Unit
Shorter (some c) n = length c + 1 ≡ n

drop_clean-Shorter : (c : Cache) → Shorter (drop_clean c) (length c)
unfolding drop_clean Shorter
drop_clean-Shorter [] = tt
drop_clean-Shorter (e ∷ c) = elim (Bool-cases (header e.1).is_dirty) [
  | inr clean ↦ rw clean (omega arith)
  | inl dirty ↦ rw dirty (behind (drop_clean c) (drop_clean-Shorter c))
]
  where
    behind :
        (o : Option Cache)
        → Shorter o (length c)
        → Shorter (elim o [ none ↦ none | some d ↦ some (e ∷ d) ]) (suc (length c))
    behind none h = tt
    behind (some d) h = omega arith

module _ (F : Files) (aligned_alloc : F.Disk → Option Memory) where
  open F use {Disk}

  abbrev pub IsBounded : PageManager Disk → Type 0
  IsBounded s = length s.page_cache ≤ 100

  finish_flush-length :
      (s : PageManager Disk) (id : ℕ) (r : Disk × PageBuffer × Outcome (Unit {0}))
      → length (finish_flush F aligned_alloc s id r).0.page_cache ≡ length s.page_cache
  unfolding finish_flush
  finish_flush-length s id (disk, none, o) = refl
  finish_flush-length s id (disk, some m, returns u) = length-modify id m s.page_cache
  finish_flush-length s id (disk, some m, throws e) = length-modify id m s.page_cache

  flush_found-length :
      (s : PageManager Disk) (id : ℕ) (o : Option Memory)
      → length (flush_found F aligned_alloc s id o).0.page_cache ≡ length s.page_cache
  unfolding flush_found
  flush_found-length s id none = refl
  flush_found-length s id (some m) = elim (Bool-cases (header m).is_dirty) [
    | inl dirty ↦ rw dirty (finish_flush-length s id _)
    | inr clean ↦ rw clean refl
  ]

  pub flush_page-length :
      (s : PageManager Disk) (id : ℕ)
      → length (flush_page F aligned_alloc s id).0.page_cache ≡ length s.page_cache
  unfolding flush_page
  flush_page-length s id = flush_found-length s id (find id s.page_cache)

  drop_first-length : (c : Cache) (n : ℕ) → length c ≤ suc n → length (drop_first c) ≤ n
  unfolding drop_first
  drop_first-length [] n h = omega arith
  drop_first-length (e ∷ c) n h = omega arith

  evict_first-length :
      (s : PageManager Disk) (c : Cache)
      → s.page_cache ≡ c
      → IsBounded s
      → length (evict_first F aligned_alloc s c).page_cache ≤ 99
  unfolding evict_first
  evict_first-length s [] e h = omega (arith, ap length e)
  evict_first-length s (x ∷ c) e h =
      drop_first-length (flush_page F aligned_alloc s x.0).0.page_cache 99
        (omega (arith, flush_page-length s x.0))

  evict_from-length :
      (s : PageManager Disk) (o : Option Cache)
      → Shorter o (length s.page_cache)
      → IsBounded s
      → length (evict_from F aligned_alloc s o).page_cache ≤ 99
  unfolding evict_from Shorter
  evict_from-length s none p h = evict_first-length s s.page_cache refl h
  evict_from-length s (some c) p h = omega arith

  pub evict-length :
      (s : PageManager Disk)
      → IsBounded s
      → length (evict_page_if_needed F aligned_alloc s).page_cache ≤ 99
  unfolding evict_page_if_needed
  evict-length s h = elim (lt-or-le (length s.page_cache) 100) [
    | inl room ↦ rw (lt→ltb _ _ room) (omega arith)
    | inr full ↦
        rw (le→ltb _ _ full)
          (evict_from-length s (drop_clean s.page_cache) (drop_clean-Shorter s.page_cache) h)
  ]

  admit-IsBounded :
      (s : PageManager Disk) (id : ℕ) (r : PageBuffer × Outcome (Unit {0}))
      → IsBounded s
      → IsBounded (admit F aligned_alloc s id r).0
  unfolding admit
  admit-IsBounded s id (p, throws e) h = h
  admit-IsBounded s id (none, returns u) h = h
  admit-IsBounded s id (some m, returns u) h = elim (Bool-cases (page_verify_checksum (some m))) [
    | inl good ↦ rw good (
        omega (
          arith,
          length-cache_put id m (evict_page_if_needed F aligned_alloc s).page_cache,
          evict-length s h,
        ))
    | inr bad ↦ rw bad h
  ]

  load_new-IsBounded :
      (s : PageManager Disk) (id : ℕ) (o : Option Memory)
      → IsBounded s
      → IsBounded (load_new F aligned_alloc s id o).0
  unfolding load_new
  load_new-IsBounded s id none h = h
  load_new-IsBounded s id (some raw) h =
      admit-IsBounded s id (read_page F s.disk_manager s.disk id (some (create_new raw))) h

  get_found-IsBounded :
      (s : PageManager Disk) (id : ℕ) (o : Option Memory)
      → IsBounded s
      → IsBounded (get_found F aligned_alloc s id o).0
  unfolding get_found
  get_found-IsBounded s id (some m) h = h
  get_found-IsBounded s id none h = load_new-IsBounded s id (aligned_alloc s.disk) h

  pub get_page-IsBounded :
      (s : PageManager Disk) (id : ℕ) → IsBounded s → IsBounded (get_page F aligned_alloc s id).0
  unfolding get_page
  get_page-IsBounded s id h = get_found-IsBounded s id (find id s.page_cache) h

  pub update_fsm-IsBounded :
      (s : PageManager Disk) (id : ℕ) (m : Memory)
      → IsBounded s
      → IsBounded (update_fsm F aligned_alloc s id m)
  unfolding update_fsm
  update_fsm-IsBounded s id m h = h
