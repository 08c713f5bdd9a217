-- ===== src/DiskManager/Image.antt =====
-- What `WritePage` and `ReadPage` do to the bytes of a page.
use storage_prototype.Common.{
  ℕ, ◌%◌, ◌^◌, ◌≤◌, ◌<◌, ◌≡◌, refl, sym, ap, ◌∙◌, arith, true, false, some,
}
use storage_prototype.Memory.{Memory}
use storage_prototype.Page.Layout.{PageHeader, SlotEntry, header, slot, with_header}
use storage_prototype.Page.Layout.Laws.{header-write_header}
use storage_prototype.Page.Layout.Bounds.{header_fits}
use storage_prototype.Page.Image.{verify_checksum, seal}
use storage_prototype.Page.Image.Seal.{seal_lem, header-seal, slot-seal, seal_above, verify-seal}
use storage_prototype.Page.Runtime.{
  persistent, SamePage, SamePage-trans, SamePage-congr, write-SamePage, verify-SamePage,
  recompute_from-SamePage,
}
use storage_prototype.Page.Directory.Statistics.{
  slot_sum, slot_sum_congr, slot_sum_bounds, dead_count, dead_length, recompute_from_lem,
}
use storage_prototype.Common.Sums.{sum_below_congr}
use storage_prototype.Page.Invariant.{live_length, WellFormed}
use storage_prototype.Page.Invariant.Preserve.{shrink-IsPacked}
use storage_prototype.Page.Invariant.Change.{slot_id_fits}
use storage_prototype.Page.Object.{page_compute_checksum}
use storage_prototype.Page.View.Agrees.{view_checksum_lem}
use storage_prototype.DiskManager.{load_page, store_page}

-- What a page keeps on disk: not the run-time fields and not the checksum.
abbrev pub stored_header : PageHeader → PageHeader
stored_header h = record (persistent h) { checksum = 0 }

-- `m'` is `m` read back from disk.
pub record Reloaded (m m' : Memory) : Type 0 where
  pub same_header : stored_header (header m') ≡ stored_header (header m)
  pub entries : (i : ℕ) → i < (header m).slot_count → slot m' i ≡ slot m i
  pub data_kept : (x : ℕ) → 40 ≤ x → x < 8192 → m' x ≡ m x
  pub deleted_counted :
      (header m').deleted_tuple_count ≡ slot_sum dead_count (header m').slot_count 0 m'
  pub bytes_counted :
      (header m').fragmented_bytes ≡ slot_sum dead_length (header m').slot_count 0 m'
  pub clean : (header m').is_dirty ≡ false
  pub verified : verify_checksum m' ≡ true
  pub well_formed : WellFormed m'

store_page_lem : (m : Memory) → store_page m ≡ seal persistent m
unfolding store_page page_compute_checksum
store_page_lem m =
    ap (λ (c : ℕ). with_header (λ h. record h { checksum = c }) (with_header persistent m))
      (view_checksum_lem (some (with_header persistent m))).0
    ∙ seal_lem persistent m

pub store_page-slot_count :
    (m : Memory) → (header (store_page m)).slot_count ≡ (header m).slot_count % 2 ^ 16
unfolding store_page
store_page-slot_count m = omega (
  arith,
  ap (λ (h : PageHeader). h.slot_count) (header-write_header _ (with_header persistent m)),
  ap (λ (h : PageHeader). h.slot_count) (header-write_header _ m),
)

-- The run-time fields cleared, before the count.
abbrev cleared : Memory → Memory
cleared b =
    with_header (λ h. record h { deleted_tuple_count = 0; fragmented_bytes = 0; is_dirty = false })
      b

cleared-SamePage : (b : Memory) → SamePage b (cleared b)
cleared-SamePage b = write-SamePage 0 0 false b

pub load_page-SamePage :
    (b : Memory) → SamePage b (load_page b) × ((header (load_page b)).is_dirty ≡ false)
unfolding load_page
load_page-SamePage b =
    let (same, dirty) = recompute_from-SamePage (header (cleared b)).slot_count 0 (cleared b) in
    (
      SamePage-trans (cleared-SamePage b) same,
      dirty ∙ ap (λ (h : PageHeader). h.is_dirty) (header-write_header _ b),
    )

slot_sum-SamePage :
    (f : SlotEntry → ℕ) {m m' : Memory}
    → SamePage m m'
    → (header m).slot_count ≤ 1019
    → slot_sum f (header m').slot_count 0 m' ≡ slot_sum f (header m).slot_count 0 m
slot_sum-SamePage f {m} {m'} s few =
    ap (λ (h : PageHeader). slot_sum f h.slot_count 0 m') s.same_header
    ∙ slot_sum_congr f (header m).slot_count 0 m' m (λ i p. s.same_slot i (omega arith))

load_page_counts :
    (b : Memory)
    → (header b).slot_count ≤ 1019
    → ((header (load_page b)).deleted_tuple_count ≡ slot_sum dead_count (header b).slot_count 0 b)
      × ((header (load_page b)).fragmented_bytes ≡ slot_sum dead_length (header b).slot_count 0 b)
unfolding load_page
load_page_counts b few =
    let as_before = ap (λ (h : PageHeader). h.slot_count) (cleared-SamePage b).same_header in
    let (deleted, fragmented, _, _) =
      recompute_from_lem (header (cleared b)).slot_count 0 (cleared b) (omega (arith, as_before)) in
    let (fits, short) = slot_sum_bounds (header b).slot_count 0 b in
    (
      omega (
        arith,
        deleted,
        ap (λ (h : PageHeader). h.deleted_tuple_count) (header-write_header _ b),
        slot_sum-SamePage dead_count (cleared-SamePage b) few,
        fits,
      ),
      omega (
        arith,
        fragmented,
        ap (λ (h : PageHeader). h.fragmented_bytes) (header-write_header _ b),
        slot_sum-SamePage dead_length (cleared-SamePage b) few,
        short,
      ),
    )

-- Headers that agree on the bounds, and entries that agree, are as well formed.
pub WellFormed-congr :
    (m m' : Memory)
    → WellFormed m
    → stored_header (header m') ≡ stored_header (header m)
    → ((i : ℕ) → i < (header m).slot_count → slot m' i ≡ slot m i)
    → WellFormed m'
WellFormed-congr m m' w e same =
    rw
      (
        ap (λ (h : PageHeader). h.free_start) e,
        ap (λ (h : PageHeader). h.free_end) e,
        ap (λ (h : PageHeader). h.slot_count) e,
      )
      (shrink-IsPacked w (slot m') (λ i p l. rw (same i p) (rw (same i p) at l, refl, omega arith))
        (omega (
          arith,
          sum_below_congr (header m).slot_count (λ i. live_length (slot m' i))
              (λ i. live_length (slot m i)) (λ i p. ap live_length (same i p)),
        )))

-- What `WritePage` wrote, in a buffer that `ReadPage` filled.
pub load-store :
    (m b : Memory)
    → WellFormed m
    → ((x : ℕ) → x < 8192 → b x ≡ store_page m x)
    → Reloaded m (load_page b)
load-store m b w h = record {
  same_header = header_kept;
  entries = entry_kept;
  data_kept = λ x p q.
      same.same_data x p q
      ∙ ap (λ (f : Memory). f x) (store_page_lem m)
      ∙ seal_above persistent m x p;
  deleted_counted = counts.0 ∙ sym (slot_sum-SamePage dead_count (load_page-SamePage b).0 few);
  bytes_counted = counts.1 ∙ sym (slot_sum-SamePage dead_length (load_page-SamePage b).0 few);
  clean = (load_page-SamePage b).1;
  verified =
      verify-SamePage same ∙ ap verify_checksum (store_page_lem m) ∙ verify-seal persistent m;
  well_formed = WellFormed-congr m (load_page b) w header_kept entry_kept;
}
  where
    same : SamePage (store_page m) (load_page b)
    same = SamePage-trans (SamePage-congr (store_page m) b h) (load_page-SamePage b).0

    header_stored : stored_header (header (store_page m)) ≡ stored_header (header m)
    header_stored =
        ap (λ (n : Memory). stored_header (header n)) (store_page_lem m)
        ∙ ap stored_header (header-seal persistent m)
        ∙ ap stored_header (header_fits m)

    header_kept : stored_header (header (load_page b)) ≡ stored_header (header m)
    header_kept =
        ap (λ (h : PageHeader). record h { checksum = 0 }) same.same_header ∙ header_stored

    few : (header b).slot_count ≤ 1019
    few = omega (
      arith,
      ap (λ (h : PageHeader). h.slot_count) (SamePage-congr (store_page m) b h).same_header,
      ap (λ (h : PageHeader). h.slot_count) header_stored,
      w.directory,
      w.room,
      w.after_header,
    )

    counts :
        ((header (load_page b)).deleted_tuple_count ≡ slot_sum dead_count (header b).slot_count 0 b)
        × ((header (load_page b)).fragmented_bytes ≡ slot_sum dead_length (header b).slot_count 0 b)
    counts = load_page_counts b few

    entry_kept : (i : ℕ) → i < (header m).slot_count → slot (load_page b) i ≡ slot m i
    entry_kept i p =
        same.same_slot i (slot_id_fits m i w p)
        ∙ ap (λ (n : Memory). slot n i) (store_page_lem m)
        ∙ slot-seal i persistent m (slot_id_fits m i w p)
