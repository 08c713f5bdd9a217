-- ===== src/PageManager/Update/Bounds.antt =====
-- `UpdateTuple` keeps the bound on the cache.
use storage_prototype.Common.{ℕ, ◌==◌, Option, none, some}
use storage_prototype.Memory.{Memory}
use storage_prototype.Files.{Files}
use storage_prototype.Page.Layout.{invalid_slot_id}
use storage_prototype.Page.Directory.{TupleId}
use storage_prototype.Page.Tuples.{insert_tuple, update_tuple_in_place, mark_slot_forwarded}
use storage_prototype.FreeSpace.{invalid_page_id}
use storage_prototype.DiskManager.{Outcome, returns, throws}
use storage_prototype.PageManager.{PageManager, succeeded, is_no_tuple}
use storage_prototype.PageManager.Bounds.{IsBounded, get_page-IsBounded, update_fsm-IsBounded}
use storage_prototype.PageManager.Bounds.Calls.{
  either-IsBounded, modify-IsBounded, follow_forwarding_chain_full-IsBounded,
}
use storage_prototype.PageManager.Methods.Bounds.{choose_page-IsBounded}
use storage_prototype.PageManager.Update.{
  update_new_fsm, update_original, update_new, update_chosen, update_current, update_followed,
  manager_update_tuple,
}

module _ (F : Files) (aligned_alloc : F.Disk → Option Memory) where
  open F use {Disk}

  abbrev Bounded : PageManager Disk → Type 0
  Bounded s = IsBounded F aligned_alloc s

  update_new_fsm-IsBounded :
      (s : PageManager Disk) (id : ℕ) (o : Option Memory)
      → Bounded s
      → Bounded (update_new_fsm F aligned_alloc s id o).0
  unfolding update_new_fsm
  update_new_fsm-IsBounded s id none h = h
  update_new_fsm-IsBounded s id (some m) h = update_fsm-IsBounded F aligned_alloc s id m h

  update_original-IsBounded :
      (r : PageManager Disk × Option Memory) (t : TupleId) (id slot_id : ℕ)
      → Bounded r.0
      → Bounded (update_original F aligned_alloc r t id slot_id).0
  unfolding update_original
  update_original-IsBounded (s, none) t id slot_id h = h
  update_original-IsBounded (s, some m) t id slot_id h =
      let m' = (mark_slot_forwarded m t.slot_id id slot_id).0 in
      let changed = modify-IsBounded F aligned_alloc s t.page_id m' h in
      either-IsBounded F aligned_alloc (succeeded (mark_slot_forwarded m t.slot_id id slot_id).1) _
        _
        (update_new_fsm-IsBounded _ id _
          (update_fsm-IsBounded F aligned_alloc _ t.page_id m' changed))
        changed

  update_new-IsBounded :
      (r : PageManager Disk × Option Memory) (t : TupleId) (id : ℕ) (new_data : Memory) (size : ℕ)
      → Bounded r.0
      → Bounded (update_new F aligned_alloc r t id new_data size).0
  unfolding update_new
  update_new-IsBounded (s, none) t id new_data size h = h
  update_new-IsBounded (s, some m) t id new_data size h =
      let changed = modify-IsBounded F aligned_alloc s id (insert_tuple m new_data size).0 h in
      either-IsBounded F aligned_alloc ((insert_tuple m new_data size).1 == invalid_slot_id) _ _
        changed
        (update_original-IsBounded _ t id _
          (get_page-IsBounded F aligned_alloc _ t.page_id changed))

  update_chosen-IsBounded :
      (r : PageManager Disk × Outcome ℕ) (t : TupleId) (new_data : Memory) (size : ℕ)
      → Bounded r.0
      → Bounded (update_chosen F aligned_alloc r t new_data size).0
  unfolding update_chosen
  update_chosen-IsBounded (s, throws e) t new_data size h = h
  update_chosen-IsBounded (s, returns id) t new_data size h =
      either-IsBounded F aligned_alloc (id == invalid_page_id) _ _ h
        (update_new-IsBounded _ t id new_data size (get_page-IsBounded F aligned_alloc s id h))

  update_current-IsBounded :
      (r : PageManager Disk × Option Memory) (t current : TupleId) (new_data : Memory) (size : ℕ)
      → Bounded r.0
      → Bounded (update_current F aligned_alloc r t current new_data size).0
  unfolding update_current
  update_current-IsBounded (s, none) t current new_data size h = h
  update_current-IsBounded (s, some m) t current new_data size h =
      let r = update_tuple_in_place m current.slot_id new_data size in
      let changed = modify-IsBounded F aligned_alloc s current.page_id r.0 h in
      either-IsBounded F aligned_alloc (succeeded r.1) _ _
        (update_fsm-IsBounded F aligned_alloc _ current.page_id r.0 changed)
        (update_chosen-IsBounded _ t new_data size
          (choose_page-IsBounded F aligned_alloc _ _ changed))

  update_followed-IsBounded :
      (r : PageManager Disk × TupleId) (t : TupleId) (new_data : Memory) (size : ℕ)
      → Bounded r.0
      → Bounded (update_followed F aligned_alloc r t new_data size).0
  unfolding update_followed
  update_followed-IsBounded (s, current) t new_data size h =
      either-IsBounded F aligned_alloc (is_no_tuple current) _ _ h (
        update_current-IsBounded _ t current new_data size
          (get_page-IsBounded F aligned_alloc s current.page_id h))

  pub manager_update_tuple-IsBounded :
      (s : PageManager Disk) (t : TupleId) (new_data : Option Memory) (size : ℕ)
      → Bounded s
      → Bounded (manager_update_tuple F aligned_alloc s t new_data size).0
  unfolding manager_update_tuple
  manager_update_tuple-IsBounded s t none size h = h
  manager_update_tuple-IsBounded s t (some new_data) size h =
      either-IsBounded F aligned_alloc (size == 0) _ _ h (
        update_followed-IsBounded _ t new_data size
          (follow_forwarding_chain_full-IsBounded F aligned_alloc s t h))
