-- ===== src/PageManager/Update.antt =====
-- src/storage/page_manager.cpp: `UpdateTuple`. It keeps the pointer to the new page across a call of
-- `GetPage` that may evict that page; when it then reads a page that is gone, the call ends as
-- `freed_page`.
pub mod Bounds
use storage_prototype.Common.{ℕ, ◌+◌, ◌%◌, ◌^◌, ◌==◌, if◌then◌else◌, Option, none, some}
use storage_prototype.Common.Int.{ErrorCode, success, failure}
use storage_prototype.Memory.{Memory}
use storage_prototype.Files.{Files}
use storage_prototype.Page.Layout.{slot_entry_size, invalid_slot_id}
use storage_prototype.Page.Directory.{TupleId}
use storage_prototype.Page.Tuples.{insert_tuple, update_tuple_in_place, mark_slot_forwarded}
use storage_prototype.FreeSpace.{invalid_page_id}
use storage_prototype.DiskManager.{Outcome, returns, throws}
use storage_prototype.PageManager.{
  PageManager, find, modify, succeeded, is_no_tuple, get_page, update_fsm,
  follow_forwarding_chain_full,
}
use storage_prototype.PageManager.Methods.{choose_page}

pub data UpdateResult : Type 0 where
  answered : ErrorCode → UpdateResult
  freed_page : UpdateResult

module _ (F : Files) (aligned_alloc : F.Disk → Option Memory) where
  open F use {Disk}

  abbrev pub Updated : Type 0
  Updated = PageManager Disk × Outcome UpdateResult

  abbrev pub answer : PageManager Disk → ErrorCode → Updated
  answer s code = (s, returns (answered code))

  -- UpdateFSM(new_page_id, new_page), with the new page as it is in the cache, if it still is.
  pub update_new_fsm : PageManager Disk → ℕ → Option Memory → Updated
  update_new_fsm s new_page_id none = (s, returns freed_page)
  update_new_fsm s new_page_id (some m) =
      answer (update_fsm F aligned_alloc s new_page_id m) success

  -- From `MarkSlotForwarded` on, with the original page.
  pub update_original : PageManager Disk × Option Memory → TupleId → ℕ → ℕ → Updated
  update_original (s, none) t new_page_id new_slot_id = answer s (failure 8)
  update_original (s, some m) t new_page_id new_slot_id =
      let (m', code) = mark_slot_forwarded m t.slot_id new_page_id new_slot_id in
      let s' = record s { page_cache = modify t.page_id m' s.page_cache } in
      let s'' = update_fsm F aligned_alloc s' t.page_id m' in
      if succeeded code
      then update_new_fsm s'' new_page_id (find new_page_id s''.page_cache)
      else answer s' (failure 9)

  -- From `InsertTuple` on, with the new page.
  pub update_new : PageManager Disk × Option Memory → TupleId → ℕ → Memory → ℕ → Updated
  update_new (s, none) t new_page_id new_data new_size = answer s (failure 6)
  update_new (s, some m) t new_page_id new_data new_size =
      let (m', new_slot_id) = insert_tuple m new_data new_size in
      let s' = record s { page_cache = modify new_page_id m' s.page_cache } in
      let forwarded =
        update_original (get_page F aligned_alloc s' t.page_id) t new_page_id new_slot_id in
      if new_slot_id == invalid_slot_id then answer s' (failure 7) else forwarded

  -- From the choice of the new page on.
  pub update_chosen : PageManager Disk × Outcome ℕ → TupleId → Memory → ℕ → Updated
  update_chosen (s, throws e) t new_data new_size = (s, throws e)
  update_chosen (s, returns id) t new_data new_size =
      let moved = update_new (get_page F aligned_alloc s id) t id new_data new_size in
      if id == invalid_page_id then answer s (failure 5) else moved

  -- From `UpdateTupleInPlace` on, with the page where the chain ends.
  pub update_current : PageManager Disk × Option Memory → TupleId → TupleId → Memory → ℕ → Updated
  update_current (s, none) t current new_data new_size = answer s (failure 4)
  update_current (s, some m) t current new_data new_size =
      let (m', code) = update_tuple_in_place m current.slot_id new_data new_size in
      let s' = record s { page_cache = modify current.page_id m' s.page_cache } in
      let moved =
        update_chosen (choose_page F aligned_alloc s' ((new_size + slot_entry_size) % 2 ^ 16)) t
          new_data new_size in
      if succeeded code
      then answer (update_fsm F aligned_alloc s' current.page_id m') success
      else moved

  pub update_followed : PageManager Disk × TupleId → TupleId → Memory → ℕ → Updated
  update_followed (s, current) t new_data new_size =
      let updated =
        update_current (get_page F aligned_alloc s current.page_id) t current new_data new_size in
      if is_no_tuple current then answer s (failure 3) else updated

  -- UpdateTuple. `new_data` may be null.
  pub manager_update_tuple : PageManager Disk → TupleId → Option Memory → ℕ → Updated
  manager_update_tuple s t none new_size = answer s (failure 1)
  manager_update_tuple s t (some new_data) new_size =
      let updated =
        update_followed (follow_forwarding_chain_full F aligned_alloc s t) t new_data new_size in
      if new_size == 0 then answer s (failure 2) else updated
