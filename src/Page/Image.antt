-- ===== src/Page/Image.antt =====
-- src/page/page.cpp and src/page/page_view.cpp: a page image as a whole. `CreateNew` and the
-- checksum that the header stores. `Page` and `PageView` compute it by the same statements.
pub mod Laws
pub mod Damage
pub mod Seal
use storage_prototype.Common.{ℕ, Bool, false, true, ◌-◌, ◌==◌}
use storage_prototype.Memory.{Memory, memset}
use storage_prototype.Checksum
use storage_prototype.Page.Layout.{
  PageHeader, page_size, header_size, header, write_header, with_header,
}

-- Bytes 0 to 11, four zeros for the field itself, and byte 40 to the end.
unfoldable pub compute_checksum : Memory → ℕ
compute_checksum m =
    let result_crc = Checksum.update Checksum.init m 0 12 in
    let result_crc' = Checksum.update result_crc (λ _. 0) 0 4 in
    Checksum.finalize (Checksum.update result_crc' m header_size (page_size - header_size))

unfoldable pub verify_checksum : Memory → Bool
verify_checksum m = (header m).checksum == compute_checksum m

-- header->checksum = ComputeChecksum();
pub refresh_checksum : Memory → Memory
refresh_checksum m = with_header (λ h. record h { checksum = compute_checksum m }) m

-- Assignments to the header, followed by the refresh of its checksum.
pub seal : (PageHeader → PageHeader) → Memory → Memory
seal f m = refresh_checksum (with_header f m)

-- The block that `aligned_alloc` gave, cleared, with a new header.
pub create_new : Memory → Memory
create_new raw = refresh_checksum (
    write_header
      (record {
        page_id = 0;
        slot_id = 0;
        free_start = header_size;
        free_end = page_size;
        slot_count = 0;
        page_type = 0;
        flags = 0;
        checksum = 0;
        deleted_tuple_count = 0;
        fragmented_bytes = 0;
        is_dirty = true;
      })
      (memset raw 0 0 page_size))
