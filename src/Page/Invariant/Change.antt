-- ===== src/Page/Invariant/Change.antt =====
-- Well-formedness of a page in which one slot changed, and what it says of slot ids.
use storage_prototype.Common.{
  ℕ, ◌+◌, ◌*◌, ◌≤◌, ◌<◌, ◌≡◌, ◌≢◌, inl, inr, arith, Bool-cases, eq-or-ne, refl,
}
use storage_prototype.Common.Sums.{sum_below_update}
use storage_prototype.Memory.{Memory}
use storage_prototype.Page.Layout.{SlotEntry, header, slot}
use storage_prototype.Page.Directory.{has_valid}
use storage_prototype.Page.Invariant.{IsLive, live_length, WellFormed}
use storage_prototype.Page.Invariant.Preserve.{shrink-IsPacked}

-- A well-formed page has at most 1019 slots, so each has its entry above the header.
pub slot_id_fits : (m : Memory) (i : ℕ) → WellFormed m → i < (header m).slot_count → i < 1019
slot_id_fits m i w h = omega (arith, w.after_header, w.room, w.directory)

-- The entry lies at or above `free_end`.
pub entry_above :
    (m : Memory) (i : ℕ)
    → WellFormed m
    → i < (header m).slot_count
    → (header m).free_end + (i + 1) * 8 ≤ 8192
entry_above m i w h = omega (arith, w.directory)

abbrev pub SameSpace : Memory → Memory → Type 0
SameSpace m m' =
    ((header m').free_start ≡ (header m).free_start)
    × ((header m').free_end ≡ (header m).free_end)
    × ((header m').slot_count ≡ (header m).slot_count)

live_length-le :
    (e e' : SlotEntry)
    → (IsLive e' → IsLive e × (e'.offset ≡ e.offset) × (e'.length ≤ e.length))
    → live_length e' ≤ live_length e
live_length-le e e' h = elim (Bool-cases (has_valid e')) [
  | inl live ↦ rw (live, (h live).0) (h live).2
  | inr dead ↦ rw dead (omega arith)
]

module _ (m m' : Memory) (k : ℕ) (w : WellFormed m) (below : k < (header m).slot_count) where
  -- The header keeps its bounds, the other slots stay, and slot `k` shrinks or dies.
  pub change-WellFormed :
      SameSpace m m'
      → ((i : ℕ) → i < (header m).slot_count → i ≢ k → slot m' i ≡ slot m i)
      → (IsLive (slot m' k)
          → IsLive (slot m k)
            × ((slot m' k).offset ≡ (slot m k).offset)
            × ((slot m' k).length ≤ (slot m k).length))
      → WellFormed m'
  change-WellFormed (start, end, count) same changed =
      rw (start, end, count)
        (shrink-IsPacked w (slot m') kept (
          omega (
            arith,
            sum_below_update (header m).slot_count k (λ i. live_length (slot m i))
                (λ i. live_length (slot m' i)) below (λ i p ne. rw (same i p ne) refl),
            live_length-le (slot m k) (slot m' k) changed,
          )))
    where
      kept :
          (i : ℕ)
          → i < (header m).slot_count
          → IsLive (slot m' i)
          → IsLive (slot m i)
            × ((slot m' i).offset ≡ (slot m i).offset)
            × ((slot m' i).length ≤ (slot m i).length)
      kept i p live = elim (eq-or-ne i k) [
        | inl e ↦ rw e (changed (rw e at live))
        | inr ne ↦ rw (same i p ne) (rw (same i p ne) at live, refl, omega arith)
      ]
