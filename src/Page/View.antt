-- ===== src/Page/View.antt =====
-- include/page/page_view.h, src/page/page_view.cpp: class `PageView`, a pointer to a page buffer that
-- it does not own, or null.
use storage_prototype.Common.{ℕ, ◌-◌, Bool, true, false, ◌==◌, Option, none, some}
use storage_prototype.Memory.{Memory}
use storage_prototype.Checksum
use storage_prototype.Page.Layout.{header, header_size, page_size}
use storage_prototype.Page.Object.{PageBuffer, read_header, assign_header}
pub mod Agrees

pub view_compute_checksum : PageBuffer → ℕ
view_compute_checksum none = 0
view_compute_checksum (some m) =
    let result_crc = Checksum.update Checksum.init m 0 12 in
    let result_crc' = Checksum.update result_crc (λ _. 0) 0 4 in
    Checksum.finalize (Checksum.update result_crc' m header_size (page_size - header_size))

pub view_verify_checksum : PageBuffer → Bool
view_verify_checksum none = false
view_verify_checksum (some m) = (header m).checksum == view_compute_checksum (some m)

pub view_get_page_id : PageBuffer → ℕ
view_get_page_id p = read_header 0 (λ h. h.page_id) p

pub view_get_slot_id : PageBuffer → ℕ
view_get_slot_id p = read_header 0 (λ h. h.slot_id) p

pub view_get_free_start : PageBuffer → ℕ
view_get_free_start p = read_header 0 (λ h. h.free_start) p

pub view_get_free_end : PageBuffer → ℕ
view_get_free_end p = read_header 0 (λ h. h.free_end) p

pub view_get_slot_count : PageBuffer → ℕ
view_get_slot_count p = read_header 0 (λ h. h.slot_count) p

pub view_get_page_type : PageBuffer → ℕ
view_get_page_type p = read_header 0 (λ h. h.page_type) p

pub view_get_flags : PageBuffer → ℕ
view_get_flags p = read_header 0 (λ h. h.flags) p

pub view_get_checksum : PageBuffer → ℕ
view_get_checksum p = read_header 0 (λ h. h.checksum) p

pub view_is_dirty : PageBuffer → Bool
view_is_dirty p = read_header false (λ h. h.is_dirty) p

pub view_get_fragmented_bytes : PageBuffer → ℕ
view_get_fragmented_bytes p = read_header 0 (λ h. h.fragmented_bytes) p

pub view_set_page_id : ℕ → PageBuffer → PageBuffer
view_set_page_id v p = assign_header (λ h. record h { page_id = v }) p

pub view_set_slot_id : ℕ → PageBuffer → PageBuffer
view_set_slot_id v p = assign_header (λ h. record h { slot_id = v }) p

pub view_set_free_start : ℕ → PageBuffer → PageBuffer
view_set_free_start v p = assign_header (λ h. record h { free_start = v }) p

pub view_set_free_end : ℕ → PageBuffer → PageBuffer
view_set_free_end v p = assign_header (λ h. record h { free_end = v }) p

pub view_set_slot_count : ℕ → PageBuffer → PageBuffer
view_set_slot_count v p = assign_header (λ h. record h { slot_count = v }) p

pub view_set_page_type : ℕ → PageBuffer → PageBuffer
view_set_page_type v p = assign_header (λ h. record h { page_type = v }) p

pub view_set_flags : ℕ → PageBuffer → PageBuffer
view_set_flags v p = assign_header (λ h. record h { flags = v }) p

pub view_set_checksum : ℕ → PageBuffer → PageBuffer
view_set_checksum v p = assign_header (λ h. record h { checksum = v }) p
