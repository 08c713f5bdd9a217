-- ===== src/Tests/StoreTests.antt =====
-- The theorems on the free space map, at small maps.
use storage_prototype.Common.{ℕ, ◌≡◌, ◌⊎◌, arith, max, ◌||◌, true, ◌==◌, if◌then◌else◌}
use storage_prototype.FreeSpace.{
  FreeSpaceMap, empty_map, update_page_free_space, find_page_with_space, is_allocated,
  invalid_page_id,
}
use storage_prototype.FreeSpace.Search.{Reflects, FirstFit, Lacks, find_page_with_space_lem}
use storage_prototype.FreeSpace.Updates.{empty_map-Reflects, update_page_free_space-Reflects}

-- Page 3 with 500 bytes free.
abbrev one_page : FreeSpaceMap
one_page = update_page_free_space empty_map 3 500

abbrev free_bytes : ℕ → ℕ
free_bytes p = if 3 == p then 500 else 0

update_page_free_space-Reflects_example :
    Reflects one_page free_bytes
    × ((q : ℕ)
        → is_allocated one_page.allocated_pages q
          ≡ ((3 == q) || is_allocated empty_map.allocated_pages q))
    × (one_page.page_count ≡ max empty_map.page_count 4)
    × (one_page.is_dirty ≡ true)
update_page_free_space-Reflects_example =
    update_page_free_space-Reflects empty_map (λ p. 0) 3 500 (omega arith)
      (empty_map-Reflects (λ p. 0))

one_page-Reflects : Reflects one_page free_bytes
one_page-Reflects =
    (update_page_free_space-Reflects empty_map (λ p. 0) 3 500 (omega arith)
      (empty_map-Reflects (λ p. 0))).0

find_page_with_space_lem_example :
    FirstFit one_page free_bytes 300 (find_page_with_space one_page 300)
    ⊎ ((find_page_with_space one_page 300 ≡ invalid_page_id)
        × ((q : ℕ) → is_allocated one_page.allocated_pages q ≡ true → Lacks free_bytes 300 q))
find_page_with_space_lem_example =
    find_page_with_space_lem one_page free_bytes 300 one_page-Reflects
