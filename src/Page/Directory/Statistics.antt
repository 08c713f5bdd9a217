-- ===== src/Page/Directory/Statistics.antt =====
-- `RecomputeFragmentationStats` against a count over the directory.
use storage_prototype.Common.{
  ℕ, zero, suc, ◌+◌, ◌*◌, ◌%◌, ◌^◌, ◌≤◌, ◌<◌, ◌≡◌, ◌∙◌, ap, ap₂, refl, arith, if◌then◌else◌,
  Bool-cases, inl, inr,
}
use storage_prototype.Memory.{Memory}
use storage_prototype.Page.Layout.{PageHeader, SlotEntry, header, with_header, slot}
use storage_prototype.Page.Layout.Laws.{fit_header, header-write_header, slot-write_header}
use storage_prototype.Page.Layout.Bounds.{slot_bounds, header_bounds}
use storage_prototype.Page.Directory.{has_valid, recompute_from, recompute_fragmentation_stats}

abbrev pub dead_count : SlotEntry → ℕ
dead_count e = if has_valid e then 0 else 1

abbrev pub dead_length : SlotEntry → ℕ
dead_length e = if has_valid e then 0 else e.length

-- A sum over the `left` slots from `id` on.
unfoldable pub slot_sum : (SlotEntry → ℕ) → ℕ → ℕ → Memory → ℕ
slot_sum f zero id m = 0
slot_sum f (suc left) id m = f (slot m id) + slot_sum f left (id + 1) m

pub slot_sum_congr :
    (f : SlotEntry → ℕ) (left id : ℕ) (m n : Memory)
    → ((i : ℕ) → i < id + left → slot m i ≡ slot n i)
    → slot_sum f left id m ≡ slot_sum f left id n
unfolding slot_sum
slot_sum_congr f zero id m n h = refl
slot_sum_congr f (suc left) id m n h =
    ap₂ (λ (a b : ℕ). a + b) (ap f (h id (omega arith)))
      (slot_sum_congr f left (id + 1) m n (λ i p. h i (omega arith)))

-- One round of the loop.
abbrev pub round : ℕ → Memory → Memory
round id m =
    if has_valid (slot m id)
    then m
    else with_header
        (λ h. record h {
          deleted_tuple_count = (h.deleted_tuple_count + 1) % 2 ^ 16;
          fragmented_bytes = (h.fragmented_bytes + (slot m id).length) % 2 ^ 64;
        })
        m

slot-round : (id i : ℕ) (m : Memory) → i < 1019 → slot (round id m) i ≡ slot m i
slot-round id i m fits = elim (Bool-cases (has_valid (slot m id))) [
  | inl live ↦ rw live refl
  | inr dead ↦ rw dead (slot-write_header i _ m fits)
]

header-round :
    (id : ℕ) (m : Memory)
    → ((header (round id m)).deleted_tuple_count
        ≡ ((header m).deleted_tuple_count + dead_count (slot m id)) % 2 ^ 16)
      × ((header (round id m)).fragmented_bytes
          ≡ ((header m).fragmented_bytes + dead_length (slot m id)) % 2 ^ 64)
      × ((header (round id m)).slot_count ≡ (header m).slot_count)
header-round id m = elim (Bool-cases (has_valid (slot m id))) [
  | inl live ↦ rw live (ground (arith, header_bounds m))
  | inr dead ↦ rw (dead, header-write_header) (ground (arith, header_bounds m))
]

pub recompute_from_lem :
    (left id : ℕ) (m : Memory)
    → id + left ≤ 1019
    → let m' = recompute_from left id m in
      ((header m').deleted_tuple_count
        ≡ ((header m).deleted_tuple_count + slot_sum dead_count left id m) % 2 ^ 16)
      × ((header m').fragmented_bytes
          ≡ ((header m).fragmented_bytes + slot_sum dead_length left id m) % 2 ^ 64)
      × ((header m').slot_count ≡ (header m).slot_count)
      × ((i : ℕ) → i < 1019 → slot m' i ≡ slot m i)
unfolding recompute_from slot_sum
recompute_from_lem zero id m h =
    (omega (arith, header_bounds m), omega (arith, header_bounds m), refl, λ i p. refl)
recompute_from_lem (suc left) id m h =
    let (deleted, fragmented, count, slots) =
      recompute_from_lem left (id + 1) (round id m) (omega arith) in
    let (one, some_bytes, same) = header-round id m in
    (
      omega (arith, deleted, one, unchanged dead_count),
      omega (arith, fragmented, some_bytes, unchanged dead_length),
      count ∙ same,
      λ i p. slots i p ∙ slot-round id i m p,
    )
  where
    unchanged :
        (f : SlotEntry → ℕ) → slot_sum f left (id + 1) (round id m) ≡ slot_sum f left (id + 1) m
    unchanged f =
        slot_sum_congr f left (id + 1) (round id m) m (λ i p. slot-round id i m (omega arith))

pub slot_sum_bounds :
    (left id : ℕ) (m : Memory)
    → (slot_sum dead_count left id m ≤ left) × (slot_sum dead_length left id m ≤ 65535 * left)
unfolding slot_sum
slot_sum_bounds zero id m = (omega arith, omega arith)
slot_sum_bounds (suc left) id m =
    let (few, short) = slot_sum_bounds left (id + 1) m in
    (ground (arith, few), ground (arith, short, slot_bounds m id))

-- On a page with at most 1019 slots, `RecomputeFragmentationStats` sets the counters to the number of
-- slots that are not in use and to the sum of their lengths, without a wrap-around, and changes no
-- slot and not the number of slots.
pub recompute_fragmentation_stats_lem :
    (m : Memory)
    → (header m).slot_count ≤ 1019
    → let m' = recompute_fragmentation_stats m in
      ((header m').deleted_tuple_count ≡ slot_sum dead_count (header m).slot_count 0 m)
      × ((header m').fragmented_bytes ≡ slot_sum dead_length (header m).slot_count 0 m)
      × ((header m').slot_count ≡ (header m).slot_count)
      × ((i : ℕ) → i < 1019 → slot m' i ≡ slot m i)
unfolding recompute_fragmentation_stats
recompute_fragmentation_stats_lem m few =
    let (deleted, fragmented, count, slots) =
      recompute_from_lem (header m).slot_count 0 cleared (omega arith) in
    let (fits, short) = slot_sum_bounds (header m).slot_count 0 m in
    (
      omega (
        arith,
        deleted,
        ap (λ (h : PageHeader). h.deleted_tuple_count) cleared_header,
        unchanged dead_count,
        fits,
      ),
      omega (
        arith,
        fragmented,
        ap (λ (h : PageHeader). h.fragmented_bytes) cleared_header,
        unchanged dead_length,
        short,
      ),
      count ∙ ap (λ (h : PageHeader). h.slot_count) cleared_header ∙ omega (arith, header_bounds m),
      λ i p. slots i p ∙ slot-write_header i _ m p,
    )
  where
    cleared : Memory
    cleared = with_header (λ h. record h { deleted_tuple_count = 0; fragmented_bytes = 0 }) m

    cleared_header :
        header cleared
        ≡ fit_header (record (header m) { deleted_tuple_count = 0; fragmented_bytes = 0 })
    cleared_header = header-write_header _ m

    unchanged :
        (f : SlotEntry → ℕ)
        → slot_sum f (header m).slot_count 0 cleared ≡ slot_sum f (header m).slot_count 0 m
    unchanged f =
        slot_sum_congr f (header m).slot_count 0 cleared m
          (λ i p. slot-write_header i _ m (omega arith))
