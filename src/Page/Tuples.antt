-- ===== src/Page/Tuples.antt =====
-- src/page/page.cpp: insertion, deletion, update in place and forwarding of tuples, on a page with
-- a buffer and, where the call takes data, a pointer that is not null.
pub mod Delete
pub mod Update
pub mod Forward
pub mod Insert
use storage_prototype.Common.{
  ℕ, ◌+◌, ◌-◌, ◌%◌, ◌^◌, bit_and, true, not, ltb, leb, ◌==◌, if◌then◌else◌,
}
use storage_prototype.Common.Int.{ErrorCode, success, failure}
use storage_prototype.Memory.{Memory, memcpy}
use storage_prototype.Page.Layout.{
  header, with_header, slot, with_slot, write_slot, invalid_slot_id, slot_entry_size, slot_valid,
}
use storage_prototype.Page.Image.{seal}
use storage_prototype.Page.Directory.{
  has_valid, has_forwarded, fresh_entry, add_slot, find_deleted_slot, get_available_free_space,
  set_forwarding_pointer,
}

-- The branch of `InsertTuple` that takes over a deleted slot.
pub reuse_slot : Memory → ℕ → ℕ → ℕ → Memory
reuse_slot m id tuple_offset tuple_size =
    let old_length = (slot m id).length in
    with_header
      (λ h. record h {
        deleted_tuple_count = (h.deleted_tuple_count + 2 ^ 16 - 1) % 2 ^ 16;
        fragmented_bytes = (h.fragmented_bytes + 2 ^ 64 - old_length) % 2 ^ 64;
      })
      (write_slot id (fresh_entry tuple_offset tuple_size) m)

-- A new slot, or the deleted one that was found.
pub allocate_slot : Memory → ℕ → ℕ → ℕ → Memory × ℕ
allocate_slot m found tuple_offset tuple_size =
    if found == invalid_slot_id
    then add_slot m tuple_offset tuple_size
    else (reuse_slot m found tuple_offset tuple_size, found)

-- The data, the new end of the data area, and the checksum.
pub write_tuple : Memory → ℕ → Memory → ℕ → Memory
write_tuple m tuple_offset tuple tuple_size =
    seal (λ h. record h { free_start = (h.free_start + tuple_size) % 2 ^ 16 })
      (memcpy m tuple_offset tuple 0 tuple_size)

pub required_space : ℕ → ℕ → ℕ
required_space found tuple_size =
    if found == invalid_slot_id then tuple_size + slot_entry_size else tuple_size

-- What `InsertTuple` does once there is enough room.
pub place_tuple : Memory → ℕ → Memory → ℕ → Memory × ℕ
place_tuple m found tuple tuple_size =
    let tuple_offset = (header m).free_start in
    let (m', id) = allocate_slot m found tuple_offset tuple_size in
    if id == invalid_slot_id
    then (m', invalid_slot_id)
    else (write_tuple m' tuple_offset tuple tuple_size, id)

pub insert_tuple : Memory → Memory → ℕ → Memory × ℕ
insert_tuple m tuple tuple_size =
    let found = find_deleted_slot m in
    if tuple_size == 0
    then (m, invalid_slot_id)
    else if ltb (get_available_free_space m) (required_space found tuple_size)
    then (m, invalid_slot_id)
    else place_tuple m found tuple tuple_size

-- What `DeleteTuple` does to a slot in use.
pub erase_slot : Memory → ℕ → Memory
erase_slot m id =
    seal
      (λ h. record h {
        deleted_tuple_count = (h.deleted_tuple_count + 1) % 2 ^ 16;
        fragmented_bytes = (h.fragmented_bytes + (slot m id).length) % 2 ^ 64;
        is_dirty = true;
      })
      (with_slot id (λ e. record e { flags = bit_and e.flags (255 - slot_valid) }) m)

pub delete_tuple : Memory → ℕ → Memory × ErrorCode
delete_tuple m id =
    if leb (header m).slot_count id
    then (m, failure 1)
    else if has_valid (slot m id)
    then (erase_slot m id, success)
    else (m, failure 2)

-- What `UpdateTupleInPlace` does once the new data fits.
pub overwrite_tuple : Memory → ℕ → Memory → ℕ → Memory
overwrite_tuple m id new_bytes new_size =
    seal (λ h. record h { is_dirty = true })
      (with_slot id (λ e. record e { length = new_size })
        (memcpy m (slot m id).offset new_bytes 0 new_size))

pub update_tuple_in_place : Memory → ℕ → Memory → ℕ → Memory × ErrorCode
update_tuple_in_place m id new_bytes new_size =
    if new_size == 0
    then (m, failure 3)
    else if leb (header m).slot_count id
    then (m, failure 4)
    else if not (has_valid (slot m id))
    then (m, failure 6)
    else if has_forwarded (slot m id)
    then (m, failure 7)
    else if ltb (slot m id).length new_size
    then (m, failure 8)
    else (overwrite_tuple m id new_bytes new_size, success)

-- What `MarkSlotForwarded` does to a slot in use.
pub forward_slot : Memory → ℕ → ℕ → ℕ → Memory
forward_slot m id target_page_id target_slot_id =
    seal
      (λ h. record h {
        fragmented_bytes = (h.fragmented_bytes + (slot m id).length) % 2 ^ 64;
        is_dirty = true;
      })
      (set_forwarding_pointer (with_slot id (λ e. record e { length = 0 }) m) id target_page_id
        target_slot_id)

pub mark_slot_forwarded : Memory → ℕ → ℕ → ℕ → Memory × ErrorCode
mark_slot_forwarded m id target_page_id target_slot_id =
    if leb (header m).slot_count id
    then (m, failure 2)
    else if has_valid (slot m id)
    then (forward_slot m id target_page_id target_slot_id, success)
    else (m, failure 4)
