-- ===== src/Page/Image/Seal.antt =====
-- The last two steps of every change to a page: the header, then the checksum.
use storage_prototype.Common.{ℕ, ◌≤◌, ◌<◌, ◌≡◌, refl, ◌∙◌, true}
use storage_prototype.Memory.{Memory}
use storage_prototype.Page.Layout.{PageHeader, header, with_header, slot}
use storage_prototype.Page.Layout.Laws.{
  fit_header, header-write_header, slot-write_header, write_header_above,
}
use storage_prototype.Page.Image.{compute_checksum, verify_checksum, refresh_checksum, seal}
use storage_prototype.Page.Image.Laws.{
  header-refresh_checksum, slot-refresh_checksum, refresh_checksum_above, verify-refresh_checksum,
}

pub seal_lem :
    (f : PageHeader → PageHeader) (m : Memory)
    → with_header
        (λ h. record h { checksum = compute_checksum (with_header f m) })
        (with_header f m)
      ≡ seal f m
unfolding seal refresh_checksum
seal_lem f m = refl

pub header-seal :
    (f : PageHeader → PageHeader) (m : Memory)
    → header (seal f m)
      ≡ record (fit_header (f (header m))) { checksum = compute_checksum (with_header f m) }
unfolding seal
header-seal f m = header-refresh_checksum (with_header f m) ∙ (λ i.
    record (header-write_header (f (header m)) m i) {
      checksum = compute_checksum (with_header f m);
    })

pub slot-seal :
    (id : ℕ) (f : PageHeader → PageHeader) (m : Memory) → id < 1019 → slot (seal f m) id ≡ slot m id
unfolding seal
slot-seal id f m fits = slot-refresh_checksum id _ fits ∙ slot-write_header id _ m fits

pub seal_above : (f : PageHeader → PageHeader) (m : Memory) (x : ℕ) → 40 ≤ x → seal f m x ≡ m x
unfolding seal
seal_above f m x h = refresh_checksum_above _ x h ∙ write_header_above _ m x h

pub verify-seal : (f : PageHeader → PageHeader) (m : Memory) → verify_checksum (seal f m) ≡ true
unfolding seal
verify-seal f m = verify-refresh_checksum (with_header f m)
