-- ===== src/Page/Compaction.antt =====
-- src/page/page.cpp: `ShouldCompact` and `CompactPage`, on a page with a buffer.
pub mod Packing
pub mod Keeps
pub mod Whole
use storage_prototype.Common.{
  ℕ, zero, suc, ◌+◌, ◌-◌, ◌*◌, ◌/◌, ◌%◌, ◌^◌, Bool, true, false, ◌&&◌, ltb, leb, ◌==◌,
  if◌then◌else◌, List, [], ◌∷◌,
}
use storage_prototype.Memory.{Memory, memcpy}
use storage_prototype.Page.Layout.{SlotEntry, header, header_size, slot, with_slot, write_slot}
use storage_prototype.Page.Image.{seal}
use storage_prototype.Page.Directory.{has_valid}

pub should_compact : Memory → Bool
should_compact m =
    let h = header m in
    let used_space = (h.free_start + 2 ^ 64 - header_size) % 2 ^ 64 in
    let available = (h.free_end + 2 ^ 64 - h.free_start) % 2 ^ 64 in
    let potentially_available = (available + h.fragmented_bytes) % 2 ^ 64 in
    if h.deleted_tuple_count == 0
    then false
    else if ltb 0 used_space && leb 50 (h.fragmented_bytes * 100 % 2 ^ 64 / used_space)
    then true
    else if leb h.slot_count (h.deleted_tuple_count * 2)
    then true
    else ltb available 100 && leb 100 potentially_available

-- TupleInfo
pub record TupleInfo : Type 0 where
  pub original_slot_id : ℕ
  pub entry : SlotEntry

-- The first loop of `CompactPage` at slot `i`, with `left` slots to go.
pub valid_tuples : Memory → ℕ → ℕ → List TupleInfo
valid_tuples m zero i = []
valid_tuples m (suc left) i =
    let rest = valid_tuples m left (i + 1) in
    if has_valid (slot m i) then record { original_slot_id = i; entry = slot m i } ∷ rest else rest

-- The second loop: the temporary buffer and the length of what it holds.
pub pack : Memory → Memory → ℕ → List TupleInfo → Memory × ℕ
pack page temp new_offset [] = (temp, new_offset)
pack page temp new_offset (info ∷ infos) =
    pack page (memcpy temp new_offset page info.entry.offset info.entry.length)
      (new_offset + info.entry.length) infos

-- The same loop, for the offsets that it writes into the infos.
pub assign_offsets : ℕ → List TupleInfo → List TupleInfo
assign_offsets new_offset [] = []
assign_offsets new_offset (info ∷ infos) =
    record {
      original_slot_id = info.original_slot_id;
      entry = record info.entry { offset = (header_size + new_offset) % 2 ^ 16 };
    }
    ∷ assign_offsets (new_offset + info.entry.length) infos

-- The third loop.
pub update_slots : List TupleInfo → Memory → Memory
update_slots [] m = m
update_slots (info ∷ infos) m = update_slots infos (
    with_slot info.original_slot_id
      (λ e. record e { offset = info.entry.offset; length = info.entry.length }) m)

abbrev pub empty_entry : SlotEntry
empty_entry = record {
  offset = 0;
  length = 0;
  flags = 0;
  next_ptr0 = 0;
  next_ptr1 = 0;
  next_ptr2 = 0;
}

-- The last loop at slot `i`, with `left` slots to go.
pub clear_deleted : ℕ → ℕ → Memory → Memory
clear_deleted zero i m = m
clear_deleted (suc left) i m =
    clear_deleted left (i + 1) (if has_valid (slot m i) then m else write_slot i empty_entry m)

-- The path that moves tuples.
pub compact_tuples : Memory → Memory
compact_tuples m =
    let count = (header m).slot_count in
    let infos = valid_tuples m count 0 in
    let (temp, new_offset) = pack m (λ _. 0) 0 infos in
    let moved = update_slots (assign_offsets 0 infos) (memcpy m header_size temp 0 new_offset) in
    seal
      (λ h. record h {
        free_start = (header_size + new_offset) % 2 ^ 16;
        deleted_tuple_count = 0;
        fragmented_bytes = 0;
      })
      (clear_deleted count 0 moved)

pub compact_page : Memory → Memory
compact_page m =
    let h = header m in
    if h.deleted_tuple_count == 0
    then m
    else if h.slot_count == h.deleted_tuple_count
    then seal
        (λ g. record g {
          free_start = header_size;
          slot_count = 0;
          deleted_tuple_count = 0;
          fragmented_bytes = 0;
        })
        m
    else compact_tuples m
