-- ===== src/Page/Object.antt =====
-- include/page/page.h, src/page/page.cpp: class `Page`, the buffer that `page_buffer_` owns or a
-- null pointer, with the null checks that each method makes before it works on the bytes.
use storage_prototype.Common.{ℕ, ◌+◌, ◌%◌, ◌^◌, Bool, true, false, Option, none, some}
use storage_prototype.Common.Int.{ℤ, ErrorCode, success, failure}
use storage_prototype.Memory.{Memory}
use storage_prototype.Page.Layout.{PageHeader, header, with_header, invalid_slot_id}
use storage_prototype.Page.Image.{compute_checksum, verify_checksum, create_new}
use storage_prototype.Page.Directory.{
  TupleId, add_slot, mark_slot_deleted, is_slot_valid, is_slot_forwarded, get_forwarding_pointer,
  set_forwarding_pointer,
}
use storage_prototype.Page.Tuples.{
  insert_tuple, delete_tuple, update_tuple_in_place, mark_slot_forwarded,
}
use storage_prototype.Page.Chain.{no_tuple, Walk, ends_at, follow_forwarding_chain}
pub mod Fields

-- page_buffer_
abbrev pub PageBuffer : Type 0
PageBuffer = Option Memory

-- A method that reads the header, with what it returns for a null buffer.
abbrev pub read_header {ℓ} : {A : Type ℓ} → A → (PageHeader → A) → PageBuffer → A
read_header d f none = d
read_header d f (some m) = f (header m)

-- A method that assigns to the header, unless the buffer is null.
abbrev pub assign_header : (PageHeader → PageHeader) → PageBuffer → PageBuffer
assign_header f none = none
assign_header f (some m) = some (with_header f m)

-- A method that changes the bytes and returns a value.
abbrev pub run {ℓ} : {A : Type ℓ} → A → (Memory → Memory × A) → PageBuffer → PageBuffer × A
run d f none = (none, d)
run d f (some m) = let (m', a) = f m in (some m', a)

-- The page that `CreateNew` returns for what `aligned_alloc` gave.
pub create_new_page : Option Memory → Option PageBuffer
create_new_page none = none
create_new_page (some raw) = some (some (create_new raw))

unfoldable pub page_compute_checksum : PageBuffer → ℕ
page_compute_checksum none = 0
page_compute_checksum (some m) = compute_checksum m

unfoldable pub page_verify_checksum : PageBuffer → Bool
page_verify_checksum none = false
page_verify_checksum (some m) = verify_checksum m

pub get_page_id : PageBuffer → ℕ
get_page_id p = read_header 0 (λ h. h.page_id) p

pub get_slot_id : PageBuffer → ℕ
get_slot_id p = read_header 0 (λ h. h.slot_id) p

pub get_free_start : PageBuffer → ℕ
get_free_start p = read_header 0 (λ h. h.free_start) p

pub get_free_end : PageBuffer → ℕ
get_free_end p = read_header 0 (λ h. h.free_end) p

pub get_slot_count : PageBuffer → ℕ
get_slot_count p = read_header 0 (λ h. h.slot_count) p

pub get_page_type : PageBuffer → ℕ
get_page_type p = read_header 0 (λ h. h.page_type) p

pub get_flags : PageBuffer → ℕ
get_flags p = read_header 0 (λ h. h.flags) p

pub get_checksum : PageBuffer → ℕ
get_checksum p = read_header 0 (λ h. h.checksum) p

pub set_page_id : ℕ → PageBuffer → PageBuffer
set_page_id v p = assign_header (λ h. record h { page_id = v }) p

pub set_slot_id : ℕ → PageBuffer → PageBuffer
set_slot_id v p = assign_header (λ h. record h { slot_id = v }) p

pub set_free_start : ℕ → PageBuffer → PageBuffer
set_free_start v p = assign_header (λ h. record h { free_start = v }) p

pub set_free_end : ℕ → PageBuffer → PageBuffer
set_free_end v p = assign_header (λ h. record h { free_end = v }) p

pub set_slot_count : ℕ → PageBuffer → PageBuffer
set_slot_count v p = assign_header (λ h. record h { slot_count = v }) p

pub set_page_type : ℕ → PageBuffer → PageBuffer
set_page_type v p = assign_header (λ h. record h { page_type = v }) p

pub set_flags : ℕ → PageBuffer → PageBuffer
set_flags v p = assign_header (λ h. record h { flags = v }) p

pub set_checksum : ℕ → PageBuffer → PageBuffer
set_checksum v p = assign_header (λ h. record h { checksum = v }) p

pub page_is_dirty : PageBuffer → Bool
page_is_dirty p = read_header false (λ h. h.is_dirty) p

pub get_deleted_tuple_count : PageBuffer → ℕ
get_deleted_tuple_count p = read_header 0 (λ h. h.deleted_tuple_count) p

pub get_fragmented_bytes : PageBuffer → ℕ
get_fragmented_bytes p = read_header 0 (λ h. h.fragmented_bytes) p

pub page_add_slot : ℕ → ℕ → PageBuffer → PageBuffer × ℕ
page_add_slot offset length p = run invalid_slot_id (λ m. add_slot m offset length) p

pub page_mark_slot_deleted : ℕ → PageBuffer → PageBuffer
page_mark_slot_deleted id none = none
page_mark_slot_deleted id (some m) = some (mark_slot_deleted m id)

pub page_is_slot_valid : ℕ → PageBuffer → Bool
page_is_slot_valid id none = false
page_is_slot_valid id (some m) = is_slot_valid m id

pub page_is_slot_forwarded : ℕ → PageBuffer → Bool
page_is_slot_forwarded id none = false
page_is_slot_forwarded id (some m) = is_slot_forwarded m id

pub page_get_forwarding_pointer : ℕ → PageBuffer → TupleId
page_get_forwarding_pointer id none = no_tuple
page_get_forwarding_pointer id (some m) = get_forwarding_pointer m id

pub page_set_forwarding_pointer : ℕ → ℕ → ℕ → PageBuffer → PageBuffer
page_set_forwarding_pointer id page_id slot_id none = none
page_set_forwarding_pointer id page_id slot_id (some m) =
    some (set_forwarding_pointer m id page_id slot_id)

-- `tuple_data` may be null.
pub page_insert_tuple : Option Memory → ℕ → PageBuffer → PageBuffer × ℕ
page_insert_tuple none tuple_size p = (p, invalid_slot_id)
page_insert_tuple (some tuple_data) tuple_size p =
    run invalid_slot_id (λ m. insert_tuple m tuple_data tuple_size) p

-- `GetSlotCount` is 0 for a null buffer.
pub page_delete_tuple : ℕ → PageBuffer → PageBuffer × ErrorCode
page_delete_tuple id p = run (failure 1) (λ m. delete_tuple m id) p

-- The buffer is tested before the data.
pub page_update_tuple_in_place : ℕ → Option Memory → ℕ → PageBuffer → PageBuffer × ErrorCode
page_update_tuple_in_place id new_data new_size none = (none, failure 1)
page_update_tuple_in_place id none new_size (some m) = (some m, failure 2)
page_update_tuple_in_place id (some new_data) new_size (some m) =
    run (failure 1) (λ n. update_tuple_in_place n id new_data new_size) (some m)

pub page_mark_slot_forwarded : ℕ → ℕ → ℕ → PageBuffer → PageBuffer × ErrorCode
page_mark_slot_forwarded id target_page_id target_slot_id p =
    run (failure 1) (λ m. mark_slot_forwarded m id target_page_id target_slot_id) p

pub page_follow_forwarding_chain : ℕ → ℤ → PageBuffer → Walk
page_follow_forwarding_chain id max_hops none = ends_at no_tuple
page_follow_forwarding_chain id max_hops (some m) = follow_forwarding_chain m id max_hops
