-- ===== src/Page/Tuples/Insert/Outcome.antt =====
-- `InsertTuple` on a well-formed page: when it stores the tuple, and what else can happen.
use storage_prototype.Common.{
  ℕ, ◌+◌, ◌-◌, ◌≤◌, ◌<◌, ◌≡◌, ◌⊎◌, inl, inr, false, arith, refl, ap, lt-or-le, eq-or-ne, ◌==◌,
  ne→==,
}
use storage_prototype.Memory.{Memory}
use storage_prototype.Page.Layout.{header, slot, invalid_slot_id, slot_entry_size}
use storage_prototype.Page.Layout.Laws.{slot_offset_lem}
use storage_prototype.Page.Directory.{
  has_valid, find_deleted_slot, get_available_free_space, add_slot, install_slot,
}
use storage_prototype.Page.Directory.Laws.{find_deleted_slot-Finds, add_slot_lem}
use storage_prototype.Page.Invariant.{WellFormed}
use storage_prototype.Page.Invariant.Change.{slot_id_fits}
use storage_prototype.Page.Tuples.{
  required_space, allocate_slot, reuse_slot, write_tuple, place_tuple, insert_tuple,
}
use storage_prototype.Page.Tuples.Insert.{Inserted, write_tuple-Inserted}
use storage_prototype.Page.Tuples.Insert.Allocate.{reuse_slot-Allocated, install_slot-Allocated}

-- The bytes that the insertion of `size` bytes asks of the page.
abbrev pub needed : Memory → ℕ → ℕ
needed m size = required_space (find_deleted_slot m) size

module _ (m tuple : Memory) (size : ℕ) (w : WellFormed m) where
  free_space : get_available_free_space m ≡ (header m).free_end - (header m).free_start
  free_space = unfold get_available_free_space in ground (arith, w.room)

  -- A slot that is not in use is taken over.
  place_reused :
      (id : ℕ)
      → id < (header m).slot_count
      → has_valid (slot m id) ≡ false
      → (header m).free_start + size ≤ (header m).free_end
      → Inserted m tuple size (place_tuple m id tuple size).0 (place_tuple m id tuple size).1
  place_reused id below dead room =
      rw placed (
        write_tuple-Inserted m _ tuple size id w (reuse_slot-Allocated m size w id below dead room))
    where
      named : (id == invalid_slot_id) ≡ false
      named = ne→== _ _ (omega (arith, slot_id_fits m id w below))

      placed : place_tuple m id tuple size ≡ (
        write_tuple (reuse_slot m id (header m).free_start size) (header m).free_start tuple size,
        id,
      )
      placed = unfold place_tuple allocate_slot in rw (named, named)

  -- A new slot is added.
  place_new :
      0 < size
      → (header m).free_start + size + slot_entry_size ≤ (header m).free_end
      → Inserted m tuple size
          (place_tuple m invalid_slot_id tuple size).0
          (place_tuple m invalid_slot_id tuple size).1
  place_new some_size room = rw placed (
      write_tuple-Inserted m _ tuple size (header m).slot_count w
        (install_slot-Allocated m size w room))
    where
      count_fits : (header m).slot_count < 1019
      count_fits = omega (arith, w.directory, w.after_header)

      named : ((header m).slot_count == invalid_slot_id) ≡ false
      named = ne→== _ _ (omega (arith, count_fits))

      added :
          add_slot m (header m).free_start size
          ≡ (install_slot m (header m).free_start size, (header m).slot_count)
      added =
          add_slot_lem m _ size
            (omega (arith, slot_offset_lem (header m).slot_count, count_fits, w.directory))

      placed : place_tuple m invalid_slot_id tuple size ≡ (
        write_tuple (install_slot m (header m).free_start size) (header m).free_start tuple size,
        (header m).slot_count,
      )
      placed = unfold place_tuple allocate_slot in rw (added, named)

  refuses :
      (size ≡ 0) ⊎ ((header m).free_end < (header m).free_start + needed m size)
      → insert_tuple m tuple size ≡ (m, invalid_slot_id)
  unfolding insert_tuple
  refuses (inl e) = rw e refl
  refuses (inr h) = ground (arith, free_space)

  places :
      0 < size
      → (header m).free_start + needed m size ≤ (header m).free_end
      → insert_tuple m tuple size ≡ place_tuple m (find_deleted_slot m) tuple size
  unfolding insert_tuple
  places some_size room = ground (arith, free_space)

  place_found :
      0 < size
      → (header m).free_start + needed m size ≤ (header m).free_end
      → let r = place_tuple m (find_deleted_slot m) tuple size in Inserted m tuple size r.0 r.1
  unfolding required_space
  place_found some_size room = elim (find_deleted_slot-Finds m) [
    | inl (e, _) ↦ rw e (place_new some_size (omega (arith, rw e at room)))
    | inr (_, below, dead, _) ↦
        place_reused (find_deleted_slot m) below dead (omega (arith, short below, room))
  ]
    where
      short : find_deleted_slot m < (header m).slot_count → needed m size ≡ size
      short below =
          let fits : find_deleted_slot m < 1019 = slot_id_fits m (find_deleted_slot m) w below in
          rw (ne→== (find_deleted_slot m) invalid_slot_id (omega arith)) refl

  pub insert_tuple_lem :
      let (m', id) = insert_tuple m tuple size in
      (((size ≡ 0) ⊎ ((header m).free_end < (header m).free_start + needed m size))
        × (m' ≡ m)
        × (id ≡ invalid_slot_id))
      ⊎ ((0 < size)
          × ((header m).free_start + needed m size ≤ (header m).free_end)
          × Inserted m tuple size m' id)
  insert_tuple_lem = elim (eq-or-ne size 0) [
    | inl e ↦ inl (inl e, ap (λ r. r.0) (refuses (inl e)), ap (λ r. r.1) (refuses (inl e)))
    | inr ne ↦ elim (lt-or-le (header m).free_end ((header m).free_start + needed m size)) [
      | inl h ↦ inl (inr h, ap (λ r. r.0) (refuses (inr h)), ap (λ r. r.1) (refuses (inr h)))
      | inr room ↦
          inr (omega arith, room, rw (places (omega arith) room) (place_found (omega arith) room))
    ]
  ]
