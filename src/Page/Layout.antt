-- ===== src/Page/Layout.antt =====
-- include/page/page.h: the structs that the page code lays over an 8 KB buffer. A read or write
-- through `PageHeader*` or `SlotEntry*` is `header`, `with_header`, `slot` or `with_slot`; a field
-- takes the bytes that the compiler gives it on a 64-bit host (a header of 40 bytes, a packed slot
-- entry of 8), and what is stored is cut to the field's width.
pub mod Laws
pub mod Bounds
use storage_prototype.Common.{
  ℕ, zero, suc, ◌+◌, ◌-◌, ◌*◌, ◌/◌, ◌%◌, ◌^◌, Bool, true, false, not, ◌==◌, if◌then◌else◌,
}
use storage_prototype.Memory.{Memory, store, load}

abbrev pub page_size : ℕ
page_size = 8192

abbrev pub slot_entry_size : ℕ
slot_entry_size = 8

-- sizeof(PageHeader)
abbrev pub header_size : ℕ
header_size = 40

abbrev pub invalid_slot_id : ℕ
invalid_slot_id = 65535

abbrev pub slot_valid : ℕ
slot_valid = 0x01

abbrev pub slot_forwarded : ℕ
slot_forwarded = 0x02

pub record PageHeader : Type 0 where
  pub page_id : ℕ
  pub slot_id : ℕ
  pub free_start : ℕ
  pub free_end : ℕ
  pub slot_count : ℕ
  pub page_type : ℕ
  pub flags : ℕ
  pub checksum : ℕ
  pub deleted_tuple_count : ℕ
  pub fragmented_bytes : ℕ
  pub is_dirty : Bool

pub record SlotEntry : Type 0 where
  pub offset : ℕ
  pub length : ℕ
  pub flags : ℕ
  pub next_ptr0 : ℕ
  pub next_ptr1 : ℕ
  pub next_ptr2 : ℕ

-- *GetHeader()
pub header : Memory → PageHeader
header m = record {
  page_id = load 2 0 m;
  slot_id = load 2 2 m;
  free_start = load 2 4 m;
  free_end = load 2 6 m;
  slot_count = load 2 8 m;
  page_type = load 1 10 m;
  flags = load 1 11 m;
  checksum = load 4 12 m;
  deleted_tuple_count = load 2 16 m;
  fragmented_bytes = load 8 24 m;
  is_dirty = not (load 1 32 m == 0);
}

abbrev pub bool_byte : Bool → ℕ
bool_byte true = 1
bool_byte false = 0

pub write_header : PageHeader → Memory → Memory
write_header h m = store 2 0 h.page_id (
    store 2 2 h.slot_id (
      store 2 4 h.free_start (
        store 2 6 h.free_end (
          store 2 8 h.slot_count (
            store 1 10 h.page_type (
              store 1 11 h.flags (
                store 4 12 h.checksum (
                  store 2 16 h.deleted_tuple_count
                    (store 8 24 h.fragmented_bytes (store 1 32 (bool_byte h.is_dirty) m))))))))))

-- header->field = …
abbrev pub with_header : (PageHeader → PageHeader) → Memory → Memory
with_header f m = write_header (f (header m)) m

-- PAGE_SIZE - (slot_id + 1) * SLOT_ENTRY_SIZE in `size_t`, which wraps.
pub slot_offset : ℕ → ℕ
slot_offset id = (2 ^ 64 + page_size - (id + 1) * slot_entry_size) % 2 ^ 64

pub read_slot : Memory → ℕ → SlotEntry
read_slot m o = record {
  offset = load 2 o m;
  length = load 2 (o + 2) m;
  flags = load 1 (o + 4) m;
  next_ptr0 = load 1 (o + 5) m;
  next_ptr1 = load 1 (o + 6) m;
  next_ptr2 = load 1 (o + 7) m;
}

-- *GetSlotEntryPtr(slot_id)
pub slot : Memory → ℕ → SlotEntry
slot m id = read_slot m (slot_offset id)

store_slot : ℕ → SlotEntry → Memory → Memory
store_slot o e m = store 2 o e.offset (
    store 2 (o + 2) e.length (
      store 1 (o + 4) e.flags (
        store 1 (o + 5) e.next_ptr0 (store 1 (o + 6) e.next_ptr1 (store 1 (o + 7) e.next_ptr2 m)))))

pub write_slot : ℕ → SlotEntry → Memory → Memory
write_slot id e m = store_slot (slot_offset id) e m

-- slot_entry->field = …
abbrev pub with_slot : ℕ → (SlotEntry → SlotEntry) → Memory → Memory
with_slot id f m = write_slot id (f (slot m id)) m
