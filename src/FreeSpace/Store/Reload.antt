-- ===== src/FreeSpace/Store/Reload.antt =====
-- `Flush`, the destructor, and `Initialize` of the next object on the same file.
use storage_prototype.Common.{
  ℕ, ◌≡◌, inl, inr, refl, sym, ap, ◌∙◌, subst, Bool, true, false, Bool-cases, some,
}
use storage_prototype.Memory.{Memory}
use storage_prototype.Files.{Files, IsLawful}
use storage_prototype.FreeSpace.{FreeSpaceMap}
use storage_prototype.FreeSpace.Store.{
  FsmStore, fsm_store, chunks, write_to_disk, load_from_disk, loaded_or_empty, opened_fsm,
  initialize_fsm, flush_fsm, close_descriptor, close_fsm_file, destroy_fsm,
}
use storage_prototype.FreeSpace.Store.Chunks.{
  AllRead-reopen, write_to_disk-true, write_to_disk-AllRead, write_to_disk-Opened,
}
use storage_prototype.FreeSpace.Store.Format.{
  Storable, SameMap, blank, chunks-InOrder, load_from_disk-AllRead,
}

module _ (F : Files) (L : IsLawful F) (st : FsmStore) (fd : ℕ) (is_open : st.fsm_fd ≡ some fd)
    (dirty : st.fsm.is_dirty ≡ true) where
  open F use {Disk, open_file, close_file, pwrite, fsync}

  abbrev flushed : FsmStore
  flushed = record st { fsm = record st.fsm { is_dirty = false } }

  flush_fsm-true :
      (disk : Disk)
      → (flush_fsm F st disk).2 ≡ true
      → ((write_to_disk F st.fsm disk (some fd)).1 ≡ true)
        × (flush_fsm F st disk ≡ (flushed, (write_to_disk F st.fsm disk (some fd)).0, true))
  unfolding flush_fsm
  flush_fsm-true disk e = elim (Bool-cases (write_to_disk F st.fsm disk (some fd)).1) [
    | inl ok ↦ (ok, simp (dirty, is_open, ok) refl)
    | inr bad ↦ absurd (cc (simp (dirty, is_open, bad) at e))
  ]

  flush_fsm-succeeds :
      (disk : Disk)
      → ((d : Disk) (b : Memory) (n offset : ℕ) → (pwrite d fd b n offset).1 ≡ some n)
      → ((d : Disk) → (fsync d fd).1 ≡ true)
      → (flush_fsm F st disk).2 ≡ true
  unfolding flush_fsm
  flush_fsm-succeeds disk writes syncs =
      simp (dirty, is_open, write_to_disk-true F L st.fsm disk fd writes syncs) refl

  -- `Flush` of a map that was changed and fits its file, by an object whose file is open, where every
  -- write to the file is done in full and every sync succeeds: it succeeds and leaves the map as it was
  -- but not dirty, and `LoadFromDisk` of the file gives a map with its page count, its set of pages and
  -- its category for every page.
  pub flush_fsm_lem :
      (disk : Disk)
      → Storable st.fsm
      → ((d : Disk) (b : Memory) (n offset : ℕ) → (pwrite d fd b n offset).1 ≡ some n)
      → ((d : Disk) → (fsync d fd).1 ≡ true)
      → let f = flush_fsm F st disk in
        (f.2 ≡ true)
        × (f.0.fsm ≡ record st.fsm { is_dirty = false })
        × (m' : FreeSpaceMap) × (load_from_disk F blank f.1 (some fd) ≡ some m')
        × SameMap st.fsm m'
  flush_fsm_lem disk s writes syncs =
      let done = flush_fsm-succeeds disk writes syncs in
      let (wrote, f) = flush_fsm-true disk done in
      let disk' = (write_to_disk F st.fsm disk (some fd)).0 in
      let there = write_to_disk-AllRead F L st.fsm disk fd (chunks-InOrder st.fsm s) wrote in
      let (m', loads, same) = load_from_disk-AllRead st.fsm s F L disk' fd there in
      rw f (refl, refl, m', loads, same)

  destroy_fsm-flushed : (disk : Disk) → (destroy_fsm F flushed disk).1 ≡ close_file disk fd
  unfolding destroy_fsm close_fsm_file close_descriptor
  destroy_fsm-flushed disk = elim (Bool-cases st.is_initialized) [
    | inl i ↦ simp (i, is_open) refl
    | inr n ↦ simp (n, is_open) refl
  ]

  initialize_fsm-loaded :
      (disk : Disk) (fd' : ℕ) (m' : FreeSpaceMap)
      → (open_file disk st.fsm_file_name).1 ≡ some fd'
      → load_from_disk F blank (open_file disk st.fsm_file_name).0 (some fd') ≡ some m'
      → ((initialize_fsm F (fsm_store st.fsm_file_name) disk).2 ≡ true)
        × ((initialize_fsm F (fsm_store st.fsm_file_name) disk).0.fsm ≡ m')
  unfolding initialize_fsm opened_fsm loaded_or_empty
  initialize_fsm-loaded disk fd' m' opens loads = rw (opens, loads) (refl, refl)

  -- A map that was changed and fits its file is flushed, with success, by an object whose file is open;
  -- the object is destroyed; another is made for the same name and initialized, where the file can be
  -- opened. Then initialization succeeds, and the new map has the page count and the set of pages of
  -- the old one and the same category for every page, and is not dirty.
  pub reload_lem :
      (disk : Disk) (fd' : ℕ)
      → Storable st.fsm
      → L.Opened disk st.fsm_file_name fd
      → (flush_fsm F st disk).2 ≡ true
      → let f = flush_fsm F st disk in
        let closed = (destroy_fsm F f.0 f.1).1 in
        (open_file closed st.fsm_file_name).1 ≡ some fd'
        → let again = initialize_fsm F (fsm_store st.fsm_file_name) closed in
          (again.2 ≡ true) × SameMap st.fsm again.0.fsm
  reload_lem disk fd' s opened done reopens =
      let (wrote, f) = flush_fsm-true disk done in
      let disk' = (write_to_disk F st.fsm disk (some fd)).0 in
      let closed =
        ap (λ (r : FsmStore × Disk × Bool). (destroy_fsm F r.0 r.1).1) f
        ∙ destroy_fsm-flushed disk' in
      let reopens' = rw closed at reopens in
      let there =
        AllRead-reopen F L (chunks st.fsm) disk' st.fsm_file_name fd fd'
          (write_to_disk-Opened F L st.fsm disk fd st.fsm_file_name opened) reopens'
          (write_to_disk-AllRead F L st.fsm disk fd (chunks-InOrder st.fsm s) wrote) in
      let (m', loads, same) = load_from_disk-AllRead st.fsm s F L _ fd' there in
      let (ready, is) = initialize_fsm-loaded (close_file disk' fd) fd' m' reopens' loads in
      rw closed (ready, subst (SameMap st.fsm) (sym is) same)
