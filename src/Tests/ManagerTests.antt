-- ===== src/Tests/ManagerTests.antt =====
-- The theorems on the page manager, over a disk that holds one file.
use storage_prototype.Common.{◌≤◌, ◌≡◌, refl, true, Option, some, [], ◌∷◌}
use storage_prototype.Common.Int.{success}
use storage_prototype.Memory.{Memory}
use storage_prototype.Files.OneFile.{OneFile, empty_disk, one_file, one_file-IsLawful}
use storage_prototype.Page.Layout.{header}
use storage_prototype.Page.Image.{create_new}
use storage_prototype.Page.Image.Laws.{header-create_new}
use storage_prototype.Page.History.{create_new-Good}
use storage_prototype.FreeSpace.Store.{fsm_store}
use storage_prototype.DiskManager.{DiskManager, returns, new_file_header, read_page}
use storage_prototype.DiskManager.Image.{Reloaded}
use storage_prototype.DiskManager.Pages.{write_page-full}
use storage_prototype.DiskManager.Session.{ready-open}
use storage_prototype.PageManager.{PageManager, find, flush_page}
use storage_prototype.PageManager.Methods.{flush_all_pages, get_cache_size}
use storage_prototype.PageManager.Flush.{
  refreshed, flush_page-dirty, finish_flush-returns, flush_page_lem,
}
use storage_prototype.PageManager.History.{started, continued, flushes, get_cache_size_lem}

abbrev zeros : Memory
zeros x = 0

abbrev page : Memory
page = create_new zeros

abbrev session : DiskManager
session = record {
  db_file_name = 65 ∷ [];
  db_file_descriptor = some 3;
  next_page_id = 1;
  is_open = true;
  file_header = new_file_header zeros;
}

abbrev allocator : OneFile → Option Memory
allocator d = some zeros

-- One new page in the cache.
abbrev manager : PageManager OneFile
manager = record {
  disk_manager = session;
  fsm = fsm_store (77 ∷ []);
  page_cache = (5, page) ∷ [];
  disk = record empty_disk { created = true };
}

abbrev empty_manager : PageManager OneFile
empty_manager = record manager { page_cache = [] }

get_cache_size_lem_example :
    get_cache_size one_file allocator (flush_all_pages one_file allocator empty_manager).0 ≤ 100
get_cache_size_lem_example = get_cache_size_lem one_file allocator (
    continued (started session (fsm_store (77 ∷ [])) (record empty_disk { created = true }))
      flushes)

cached : find 5 manager.page_cache ≡ some page
unfolding find
cached = refl

dirty : (header page).is_dirty ≡ true
dirty = (header-create_new zeros).5

done : (flush_page one_file allocator manager 5).1 ≡ success
done =
    rw
      (
        flush_page-dirty one_file allocator manager 5 page cached dirty,
        write_page-full one_file session 3 (ready-open session refl) manager.disk 5 (refreshed page)
            refl,
      )
      (finish_flush-returns one_file allocator manager 5 _ _)

flush_page_lem_example :
    let s' = (flush_page one_file allocator manager 5).0 in
    let r = read_page one_file s'.disk_manager s'.disk 5 (some zeros) in
    (r.1 ≡ returns tt) × (m' : Memory) × (r.0 ≡ some m') × Reloaded page m'
flush_page_lem_example =
    flush_page_lem one_file allocator one_file-IsLawful manager 5 page zeros cached
      (create_new-Good zeros).0 dirty done
