-- ===== src/PageManager/Flush.antt =====
-- `FlushPage`: a dirty page that was flushed is on the disk.
use storage_prototype.Common.{
  ℕ, ◌<◌, ◌≡◌, refl, sym, ap, ◌∙◌, subst, Bool, true, Option, none, some, if◌then◌else◌,
}
use storage_prototype.Common.Int.{success}
use storage_prototype.Memory.{Memory}
use storage_prototype.Files.{Files, IsLawful}
use storage_prototype.Page.Layout.{header, slot, with_header}
use storage_prototype.Page.Layout.Laws.{header-write_header, slot-write_header, write_header_above}
use storage_prototype.Page.Layout.Bounds.{header_fits}
use storage_prototype.Page.Image.{compute_checksum}
use storage_prototype.Page.Invariant.{WellFormed}
use storage_prototype.Page.Invariant.Change.{slot_id_fits}
use storage_prototype.Page.Object.{PageBuffer}
use storage_prototype.DiskManager.{Outcome, returns, throws, read_page, write_page}
use storage_prototype.DiskManager.Image.{stored_header, Reloaded, WellFormed-congr}
use storage_prototype.DiskManager.Pages.{read_page-write_page}
use storage_prototype.PageManager.{PageManager, find, finish_flush, flush_found, flush_page}

-- The page with its checksum refreshed, as `FlushPage` hands it to `WritePage`.
abbrev pub refreshed : Memory → Memory
refreshed m = with_header (λ h. record h { checksum = compute_checksum m }) m

header-refreshed : (m : Memory) → stored_header (header (refreshed m)) ≡ stored_header (header m)
header-refreshed m = ap stored_header (header-write_header _ m) ∙ ap stored_header (header_fits m)

module _ (m : Memory) (w : WellFormed m) where
  slot-refreshed : (i : ℕ) → i < (header m).slot_count → slot (refreshed m) i ≡ slot m i
  slot-refreshed i p = slot-write_header i _ m (slot_id_fits m i w p)

  refreshed-WellFormed : WellFormed (refreshed m)
  refreshed-WellFormed = WellFormed-congr m (refreshed m) w (header-refreshed m) slot-refreshed

  refreshed-Reloaded : (m' : Memory) → Reloaded (refreshed m) m' → Reloaded m m'
  refreshed-Reloaded m' r = record {
    same_header = r.same_header ∙ header-refreshed m;
    entries = λ i p.
        r.entries i (subst (λ (n : ℕ). i < n) (sym (ap (λ h. h.slot_count) (header-refreshed m))) p)
        ∙ slot-refreshed i p;
    data_kept = λ x p q. r.data_kept x p q ∙ write_header_above _ m x p;
    deleted_counted = r.deleted_counted;
    bytes_counted = r.bytes_counted;
    clean = r.clean;
    verified = r.verified;
    well_formed = r.well_formed;
  }

module _ (F : Files) (aligned_alloc : F.Disk → Option Memory) where
  open F use {Disk}

  finish_flush-success :
      (s : PageManager Disk) (id : ℕ) (r : Disk × PageBuffer × Outcome (Unit {0}))
      → (finish_flush F aligned_alloc s id r).1 ≡ success
      → (r.2 ≡ returns tt)
        × ((finish_flush F aligned_alloc s id r).0.disk ≡ r.0)
        × ((finish_flush F aligned_alloc s id r).0.disk_manager ≡ s.disk_manager)
  unfolding finish_flush
  finish_flush-success s id (disk, none, o) e = absurd (cc (e))
  finish_flush-success s id (disk, some m, returns u) e = (refl, refl, refl)
  finish_flush-success s id (disk, some m, throws x) e = absurd (cc (e))

  pub flush_page-dirty :
      (s : PageManager Disk) (id : ℕ) (m : Memory)
      → find id s.page_cache ≡ some m
      → (header m).is_dirty ≡ true
      → flush_page F aligned_alloc s id
        ≡ finish_flush F aligned_alloc s id
            (write_page F s.disk_manager s.disk id (some (refreshed m)))
  unfolding flush_page flush_found
  flush_page-dirty s id m found dirty =
      ap (flush_found F aligned_alloc s id) found
      ∙ ap
          (λ (b : Bool).
            if b
            then finish_flush F aligned_alloc s id
                (write_page F s.disk_manager s.disk id (some (refreshed m)))
            else (s, success))
          dirty

  pub finish_flush-returns :
      (s : PageManager Disk) (id : ℕ) (disk : Disk) (m : Memory)
      → (finish_flush F aligned_alloc s id (disk, some m, returns tt)).1 ≡ success
  unfolding finish_flush
  finish_flush-returns s id disk m = refl

  -- `FlushPage` of a dirty, well-formed page in the cache, when it reports success: `ReadPage` of that
  -- id then returns, and gives the page as it was in the cache, with exact counters of deleted slots,
  -- clean, verified and well formed.
  pub flush_page_lem :
      (L : IsLawful F) (s : PageManager Disk) (id : ℕ) (m buffer : Memory)
      → find id s.page_cache ≡ some m
      → WellFormed m
      → (header m).is_dirty ≡ true
      → (flush_page F aligned_alloc s id).1 ≡ success
      → let s' = (flush_page F aligned_alloc s id).0 in
        let r = read_page F s'.disk_manager s'.disk id (some buffer) in
        (r.1 ≡ returns tt) × (m' : Memory) × (r.0 ≡ some m') × Reloaded m m'
  flush_page_lem L s id m buffer found w dirty done =
      let e = flush_page-dirty s id m found dirty in
      let (wrote, same_disk, same_manager) = finish_flush-success s id _ (rw e at done) in
      let (good, m', got, reloaded) =
        read_page-write_page F L s.disk_manager s.disk id (refreshed m) buffer
          (refreshed-WellFormed m w) wrote in
      rw e (rw (same_disk, same_manager) (good, m', got, refreshed-Reloaded m w m' reloaded))
