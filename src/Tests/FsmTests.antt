-- ===== src/Tests/FsmTests.antt =====
-- The theorems on the file of the free space map, on a disk that holds one file.
use storage_prototype.Common.{◌≡◌, refl, arith, true, false, some, [], ◌∷◌}
use storage_prototype.Files.OneFile.{OneFile, empty_disk, one_file, one_file-IsLawful}
use storage_prototype.FreeSpace.{FreeSpaceMap, empty_map, update_page_free_space}
use storage_prototype.FreeSpace.Store.{
  FsmStore, fsm_store, load_from_disk, flush_fsm, destroy_fsm, initialize_fsm,
}
use storage_prototype.FreeSpace.Store.Format.{Storable, SameMap, blank}
use storage_prototype.FreeSpace.Store.Reload.{flush_fsm_lem, reload_lem}
use storage_prototype.FreeSpace.Store.Maintained.{
  empty_map-Storable, update_page_free_space-Storable,
}

-- Page 3 with 500 bytes free.
abbrev one_page : FreeSpaceMap
one_page = update_page_free_space empty_map 3 500

one_page-Storable : Storable one_page
one_page-Storable =
    update_page_free_space-Storable empty_map 3 500 (omega arith) (omega arith) empty_map-Storable

-- An object with that map, on the file "M".
abbrev with_page : FsmStore
with_page = record (fsm_store (77 ∷ [])) {
  fsm_fd = some 3;
  fsm = record one_page { is_dirty = true };
  is_initialized = true;
}

with_page-Storable : Storable with_page.fsm
with_page-Storable = record {
  below = one_page-Storable.below;
  cached = one_page-Storable.cached;
  pages_fit = one_page-Storable.pages_fit;
  few = one_page-Storable.few;
  byte_sized = one_page-Storable.byte_sized;
}

abbrev made : OneFile
made = record empty_disk { created = true }

made-Opened : one_file-IsLawful.Opened made (77 ∷ []) 3
made-Opened = one_file-IsLawful.open-Opened empty_disk (77 ∷ []) 3 refl

flush_fsm_lem_example :
    ((flush_fsm one_file with_page made).2 ≡ true)
    × ((flush_fsm one_file with_page made).0.fsm ≡ record one_page { is_dirty = false })
    × (m' : FreeSpaceMap) × (load_from_disk one_file blank
          (flush_fsm one_file with_page made).1
          (some 3)
        ≡ some m')
    × SameMap with_page.fsm m'
flush_fsm_lem_example =
    flush_fsm_lem one_file one_file-IsLawful with_page 3 refl refl made with_page-Storable
      (λ d b n offset. refl) (λ d. refl)

flushes : (flush_fsm one_file with_page made).2 ≡ true
flushes =
    (flush_fsm_lem one_file one_file-IsLawful with_page 3 refl refl made with_page-Storable
      (λ d b n offset. refl) (λ d. refl)).0

reload_lem_example :
    let f = flush_fsm one_file with_page made in
    let again = initialize_fsm one_file (fsm_store (77 ∷ [])) (destroy_fsm one_file f.0 f.1).1 in
    (again.2 ≡ true) × SameMap with_page.fsm again.0.fsm
reload_lem_example =
    reload_lem one_file one_file-IsLawful with_page 3 refl refl made 3 with_page-Storable
      made-Opened flushes refl
