-- ===== src/Page/Runtime.antt =====
-- The fields of the header that are not kept on disk: what changes when only they are written.
use storage_prototype.Common.{
  ℕ, zero, suc, ◌+◌, ◌%◌, ◌≤◌, ◌<◌, ◌≡◌, refl, ap, ap₂, ◌∙◌, arith, Bool, false, ◌==◌, Bool-cases,
  inl, inr,
}
use storage_prototype.Memory.{Memory}
use storage_prototype.Page.Layout.{PageHeader, header, slot, write_header}
use storage_prototype.Page.Layout.Laws.{
  header-write_header, slot-write_header, write_header_above, header_congr,
}
use storage_prototype.Page.Layout.Bounds.{header_fits, write_header_start, slot_congr}
use storage_prototype.Page.Image.{compute_checksum, verify_checksum}
use storage_prototype.Page.Image.Laws.{compute_checksum_congr}
use storage_prototype.Page.Directory.{has_valid, recompute_from}
use storage_prototype.Page.Directory.Statistics.{round}

-- A header without its run-time fields.
abbrev pub persistent : PageHeader → PageHeader
persistent h = record h { deleted_tuple_count = 0; fragmented_bytes = 0; is_dirty = false }

-- `m'` differs from `m` in the run-time fields of the header at most.
pub record SamePage (m m' : Memory) : Type 0 where
  pub same_header : persistent (header m') ≡ persistent (header m)
  pub same_checksum : compute_checksum m' ≡ compute_checksum m
  pub same_slot : (id : ℕ) → id < 1019 → slot m' id ≡ slot m id
  pub same_data : (x : ℕ) → 40 ≤ x → x < 8192 → m' x ≡ m x

pub SamePage-refl : (m : Memory) → SamePage m m
SamePage-refl m = record {
  same_header = refl;
  same_checksum = refl;
  same_slot = λ id p. refl;
  same_data = λ x p q. refl;
}

pub SamePage-trans : {m m' m'' : Memory} → SamePage m m' → SamePage m' m'' → SamePage m m''
SamePage-trans a b = record {
  same_header = b.same_header ∙ a.same_header;
  same_checksum = b.same_checksum ∙ a.same_checksum;
  same_slot = λ id p. b.same_slot id p ∙ a.same_slot id p;
  same_data = λ x p q. b.same_data x p q ∙ a.same_data x p q;
}

pub verify-SamePage : {m m' : Memory} → SamePage m m' → verify_checksum m' ≡ verify_checksum m
unfolding verify_checksum
verify-SamePage s =
    ap₂ (λ (a b : ℕ). a == b) (ap (λ (h : PageHeader). h.checksum) s.same_header) s.same_checksum

-- Buffers that agree on the page are the same page.
pub SamePage-congr : (m m' : Memory) → ((x : ℕ) → x < 8192 → m' x ≡ m x) → SamePage m m'
SamePage-congr m m' h = record {
  same_header = ap persistent (header_congr m' m (λ x p. h x (omega arith)));
  same_checksum =
      compute_checksum_congr m' m (λ x p. ap (λ (b : ℕ). b % 256) (h x (omega arith)))
        (λ x p q. ap (λ (b : ℕ). b % 256) (h x q));
  same_slot = λ id p. slot_congr m' m id p (λ x q r. h x r);
  same_data = λ x p q. h x q;
}

-- Only run-time fields are assigned.
pub write-SamePage :
    (d f : ℕ) (b : Bool) (m : Memory)
    → SamePage m (
        write_header
          (record (header m) { deleted_tuple_count = d; fragmented_bytes = f; is_dirty = b })
          m)
write-SamePage d f b m = record {
  same_header = ap persistent (header-write_header _ m) ∙ ap persistent (header_fits m);
  same_checksum =
      compute_checksum_congr _ m (λ x p. write_header_start (header m).checksum d f b m x p)
        (λ x p q. ap (λ (y : ℕ). y % 256) (write_header_above _ m x p));
  same_slot = λ id p. slot-write_header id _ m p;
  same_data = λ x p q. write_header_above _ m x p;
}

round-SamePage : (id : ℕ) (m : Memory) → SamePage m (round id m)
round-SamePage id m = elim (Bool-cases (has_valid (slot m id))) [
  | inl live ↦ rw live (SamePage-refl m)
  | inr dead ↦ rw dead (write-SamePage _ _ _ m)
]

dirty-round : (id : ℕ) (m : Memory) → (header (round id m)).is_dirty ≡ (header m).is_dirty
dirty-round id m = elim (Bool-cases (has_valid (slot m id))) [
  | inl live ↦ rw live refl
  | inr dead ↦ rw (dead, header-write_header) refl
]

-- The loop that counts deleted slots.
pub recompute_from-SamePage :
    (left id : ℕ) (m : Memory)
    → SamePage m (recompute_from left id m)
      × ((header (recompute_from left id m)).is_dirty ≡ (header m).is_dirty)
unfolding recompute_from
recompute_from-SamePage zero id m = (SamePage-refl m, refl)
recompute_from-SamePage (suc left) id m =
    let (same, dirty) = recompute_from-SamePage left (id + 1) (round id m) in
    (SamePage-trans (round-SamePage id m) same, dirty ∙ dirty-round id m)
