-- ===== src/Page/View/Agrees.antt =====
-- `PageView` against `Page`.
use storage_prototype.Common.{◌≡◌, refl, none, some}
use storage_prototype.Page.Image.{compute_checksum, verify_checksum}
use storage_prototype.Page.Object.{PageBuffer, page_compute_checksum, page_verify_checksum}
use storage_prototype.Page.View.{view_compute_checksum, view_verify_checksum}

-- On every buffer, null or not, `PageView` computes the checksum that `Page` computes, and so
-- accepts the pages that `Page` accepts.
pub view_checksum_lem :
    (p : PageBuffer)
    → (view_compute_checksum p ≡ page_compute_checksum p)
      × (view_verify_checksum p ≡ page_verify_checksum p)
unfolding view_compute_checksum page_compute_checksum compute_checksum view_verify_checksum
    page_verify_checksum verify_checksum
view_checksum_lem none = (refl, refl)
view_checksum_lem (some m) = (refl, refl)
