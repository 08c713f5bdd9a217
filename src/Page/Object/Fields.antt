-- ===== src/Page/Object/Fields.antt =====
-- The getters and setters of `Page`.
use storage_prototype.Common.{ℕ, ◌%◌, ◌^◌, ◌≡◌, ap, some}
use storage_prototype.Memory.{Memory}
use storage_prototype.Page.Layout.{PageHeader}
use storage_prototype.Page.Layout.Laws.{header-write_header}
use storage_prototype.Page.Object.{
  get_page_id, get_slot_id, get_free_start, get_free_end, get_slot_count, get_page_type, get_flags,
  get_checksum, set_page_id, set_slot_id, set_free_start, set_free_end, set_slot_count,
  set_page_type, set_flags, set_checksum,
}

-- Each setter of a page with a buffer is read back by its getter, cut to the width of the field.
pub get-set :
    (m : Memory) (v : ℕ)
    → (get_page_id (set_page_id v (some m)) ≡ v % 2 ^ 16)
      × (get_slot_id (set_slot_id v (some m)) ≡ v % 2 ^ 16)
      × (get_free_start (set_free_start v (some m)) ≡ v % 2 ^ 16)
      × (get_free_end (set_free_end v (some m)) ≡ v % 2 ^ 16)
      × (get_slot_count (set_slot_count v (some m)) ≡ v % 2 ^ 16)
      × (get_page_type (set_page_type v (some m)) ≡ v % 2 ^ 8)
      × (get_flags (set_flags v (some m)) ≡ v % 2 ^ 8)
      × (get_checksum (set_checksum v (some m)) ≡ v % 2 ^ 32)
unfolding get_page_id set_page_id get_slot_id set_slot_id get_free_start set_free_start get_free_end
    set_free_end get_slot_count set_slot_count get_page_type set_page_type get_flags set_flags
    get_checksum set_checksum
get-set m v = (
  ap (λ (h : PageHeader). h.page_id) (header-write_header _ m),
  ap (λ (h : PageHeader). h.slot_id) (header-write_header _ m),
  ap (λ (h : PageHeader). h.free_start) (header-write_header _ m),
  ap (λ (h : PageHeader). h.free_end) (header-write_header _ m),
  ap (λ (h : PageHeader). h.slot_count) (header-write_header _ m),
  ap (λ (h : PageHeader). h.page_type) (header-write_header _ m),
  ap (λ (h : PageHeader). h.flags) (header-write_header _ m),
  ap (λ (h : PageHeader). h.checksum) (header-write_header _ m),
)
