-- ===== src/Page/Directory.antt =====
-- src/page/page.cpp: the slot directory, on a page with a buffer.
pub mod Flags
pub mod Laws
pub mod Statistics
use storage_prototype.Common.{
  ℕ, zero, suc, ◌+◌, ◌-◌, ◌*◌, ◌/◌, ◌%◌, ◌^◌, bit_and, bit_or, Bool, true, false, not, ◌&&◌, ltb,
  leb, ◌==◌, if◌then◌else◌,
}
use storage_prototype.Memory.{Memory}
use storage_prototype.Page.Layout.{
  SlotEntry, header, with_header, slot, with_slot, write_slot, slot_offset, invalid_slot_id,
  slot_valid, slot_forwarded,
}

pub record TupleId : Type 0 where
  pub page_id : ℕ
  pub slot_id : ℕ

-- flags & SLOT_VALID, flags & SLOT_FORWARDED
abbrev pub has_valid : SlotEntry → Bool
has_valid e = not (bit_and e.flags slot_valid == 0)

abbrev pub has_forwarded : SlotEntry → Bool
has_forwarded e = not (bit_and e.flags slot_forwarded == 0)

-- A fresh entry, as `AddSlot` and the reuse of a slot write it.
abbrev pub fresh_entry : ℕ → ℕ → SlotEntry
fresh_entry offset length = record {
  offset = offset;
  length = length;
  flags = slot_valid;
  next_ptr0 = 0;
  next_ptr1 = 0;
  next_ptr2 = 0;
}

-- What `AddSlot` does once there is room.
unfoldable pub install_slot : Memory → ℕ → ℕ → Memory
install_slot m offset length =
    let new_slot_id = (header m).slot_count in
    with_header
      (λ h. record h {
        slot_count = (h.slot_count + 1) % 2 ^ 16;
        free_end = slot_offset new_slot_id % 2 ^ 16;
      })
      (write_slot new_slot_id (fresh_entry offset length) m)

-- The page after the call, and the id that it returns.
pub add_slot : Memory → ℕ → ℕ → Memory × ℕ
add_slot m offset length =
    let new_slot_id = (header m).slot_count in
    if leb (slot_offset new_slot_id) (header m).free_start
    then (m, invalid_slot_id)
    else (install_slot m offset length, new_slot_id)

pub mark_slot_deleted : Memory → ℕ → Memory
mark_slot_deleted m id =
    if leb (header m).slot_count id
    then m
    else with_slot id (λ e. record e { flags = bit_and e.flags (255 - slot_valid) }) m

unfoldable pub is_slot_valid : Memory → ℕ → Bool
is_slot_valid m id = if leb (header m).slot_count id then false else has_valid (slot m id)

unfoldable pub is_slot_forwarded : Memory → ℕ → Bool
is_slot_forwarded m id = if leb (header m).slot_count id then false else has_forwarded (slot m id)

-- 16 bits of page id and 8 bits of slot id.
abbrev pub decode_pointer : SlotEntry → TupleId
decode_pointer e = record {
  page_id = bit_or e.next_ptr0 (e.next_ptr1 * 2 ^ 8);
  slot_id = e.next_ptr2;
}

pub get_forwarding_pointer : Memory → ℕ → TupleId
get_forwarding_pointer m id =
    if leb (header m).slot_count id
    then record { page_id = 0; slot_id = 0 }
    else decode_pointer (slot m id)

pub set_forwarding_pointer : Memory → ℕ → ℕ → ℕ → Memory
set_forwarding_pointer m id target_page_id target_slot_id =
    if leb (header m).slot_count id
    then m
    else with_slot id
        (λ e. record e {
          next_ptr0 = bit_and target_page_id 0xFF;
          next_ptr1 = bit_and (target_page_id / 2 ^ 8) 0xFF;
          next_ptr2 = bit_and target_slot_id 0xFF;
          flags = bit_or e.flags slot_forwarded;
        })
        m

unfoldable pub get_available_free_space : Memory → ℕ
get_available_free_space m =
    let h = header m in if ltb h.free_end h.free_start then 0 else h.free_end - h.free_start

-- The loop of `FindDeletedSlot` at `id`, with `left` ids to go.
pub find_deleted_from : Memory → ℕ → ℕ → ℕ
find_deleted_from m zero id = invalid_slot_id
find_deleted_from m (suc left) id =
    let rest = find_deleted_from m left (id + 1) in if is_slot_valid m id then rest else id

pub find_deleted_slot : Memory → ℕ
find_deleted_slot m = find_deleted_from m (header m).slot_count 0

-- The loop of `RecomputeFragmentationStats` at `id`, with `left` ids to go. For ids from 1024 on, which
-- a page of at most 1024 slots does not reach, the C++ loop reads entries before the buffer; the model,
-- whose memory is total, gives them some bytes.
unfoldable pub recompute_from : ℕ → ℕ → Memory → Memory
recompute_from zero id m = m
recompute_from (suc left) id m = recompute_from left (id + 1) (
    if has_valid (slot m id)
    then m
    else with_header
        (λ h. record h {
          deleted_tuple_count = (h.deleted_tuple_count + 1) % 2 ^ 16;
          fragmented_bytes = (h.fragmented_bytes + (slot m id).length) % 2 ^ 64;
        })
        m)

pub recompute_fragmentation_stats : Memory → Memory
recompute_fragmentation_stats m =
    recompute_from (header m).slot_count 0
      (with_header (λ h. record h { deleted_tuple_count = 0; fragmented_bytes = 0 }) m)
