-- ===== src/FreeSpace.antt =====
-- include/storage/free_space_map.h, src/storage/free_space_map.cpp: the free space map in memory.
-- Each method holds `fsm_mutex_` for its whole body, so a method is one step. `allocated_pages_` is
-- the list of its elements, each once, in the order that iteration visits them: that order is the
-- library's own choice, and `insert_page` puts a new element in front.
use storage_prototype.Common.{
  ℕ, zero, suc, ◌+◌, ◌*◌, ◌/◌, ◌%◌, ◌^◌, max, Bool, true, false, ◌&&◌, ◌||◌, not, ltb, leb, ◌==◌,
  if◌then◌else◌, List, [], ◌∷◌, length, get_or, set,
}
pub mod Category
pub mod Sets
pub mod Updates
pub mod Search
pub mod Store

abbrev pub fsm_page_size : ℕ
fsm_page_size = 8192

abbrev pub max_category : ℕ
max_category = 255

abbrev pub categories_per_page : ℕ
categories_per_page = 8184

abbrev pub invalid_page_id : ℕ
invalid_page_id = 0

pub record FreeSpaceMap : Type 0 where
  pub fsm_cache : List ℕ
  pub allocated_pages : List ℕ
  pub page_count : ℕ
  pub is_dirty : Bool

-- What the constructor and `Initialize` leave for a file that holds no map.
abbrev pub empty_map : FreeSpaceMap
empty_map = record { fsm_cache = []; allocated_pages = []; page_count = 0; is_dirty = true }

unfoldable pub bytes_to_category : ℕ → ℕ
bytes_to_category available_bytes =
    let clamped = if ltb fsm_page_size available_bytes then fsm_page_size else available_bytes in
    clamped * max_category / fsm_page_size % 2 ^ 8

unfoldable pub category_to_bytes : ℕ → ℕ
category_to_bytes category = category * fsm_page_size / max_category % 2 ^ 16

-- fsm_cache_.resize(n, 0)
pub resize : ℕ → List ℕ → List ℕ
resize zero l = []
resize (suc n) [] = 0 ∷ resize n []
resize (suc n) (x ∷ l) = x ∷ resize n l

-- `page_id + 1` is a 32-bit sum.
pub ensure_capacity : ℕ → List ℕ → List ℕ
ensure_capacity page_id cache =
    let next = (page_id + 1) % 2 ^ 32 in
    let new_size = max next (length cache * 2) in
    if leb (length cache) page_id
    then resize (if ltb (categories_per_page * 100) new_size then next else new_size) cache
    else cache

pub is_allocated : List ℕ → ℕ → Bool
is_allocated [] page_id = false
is_allocated (p ∷ ps) page_id = (p == page_id) || is_allocated ps page_id

pub insert_page : ℕ → List ℕ → List ℕ
insert_page page_id ps = if is_allocated ps page_id then ps else page_id ∷ ps

pub set_category : FreeSpaceMap → ℕ → ℕ → FreeSpaceMap
set_category fsm page_id category =
    let cache = ensure_capacity page_id fsm.fsm_cache in
    if ltb page_id (length cache)
    then record {
      fsm_cache = set cache page_id category;
      allocated_pages = insert_page page_id fsm.allocated_pages;
      page_count = if leb fsm.page_count page_id then (page_id + 1) % 2 ^ 32 else fsm.page_count;
      is_dirty = true;
    }
    else record fsm { fsm_cache = cache }

pub update_page_free_space : FreeSpaceMap → ℕ → ℕ → FreeSpaceMap
update_page_free_space fsm page_id available_bytes =
    let cache = ensure_capacity page_id fsm.fsm_cache in
    let category = bytes_to_category available_bytes in
    if ltb page_id (length cache)
    then record {
      fsm_cache = set cache page_id category;
      allocated_pages = insert_page page_id fsm.allocated_pages;
      page_count = if leb fsm.page_count page_id then (page_id + 1) % 2 ^ 32 else fsm.page_count;
      is_dirty = true;
    }
    else record fsm { fsm_cache = cache }

unfoldable pub get_category : FreeSpaceMap → ℕ → ℕ
get_category fsm page_id =
    if not (is_allocated fsm.allocated_pages page_id)
    then 0
    else if ltb page_id (length fsm.fsm_cache)
    then get_or fsm.fsm_cache page_id 0
    else 0

pub get_page_count : FreeSpaceMap → ℕ
get_page_count fsm = fsm.page_count

-- The loop of `FindPageWithSpace` over the pages that it has still to visit.
pub find_page : List ℕ → ℕ → List ℕ → ℕ
find_page cache min_category [] = invalid_page_id
find_page cache min_category (page_id ∷ ps) =
    let rest = find_page cache min_category ps in
    let page_category = get_or cache page_id 0 in
    if ltb page_id (length cache)
    then if ltb min_category page_category
      then page_id
      else if (page_category == min_category) && ltb 0 page_category
      then page_id
      else rest
    else rest

pub find_page_with_space : FreeSpaceMap → ℕ → ℕ
find_page_with_space fsm required_bytes =
    find_page fsm.fsm_cache (bytes_to_category required_bytes) fsm.allocated_pages

-- Get the page and the place of a category in a map of several pages.
pub get_fsm_page_index : ℕ → ℕ
get_fsm_page_index page_id = page_id / categories_per_page

pub get_fsm_page_offset : ℕ → ℕ
get_fsm_page_offset page_id = page_id % categories_per_page
