-- ===== src/Page/Invariant.antt =====
-- When a page is well formed: its header, its slot directory and its tuples lie apart.
use storage_prototype.Common.{
  ℕ, zero, suc, ◌+◌, ◌*◌, ◌≤◌, ◌<◌, ◌≡◌, ◌≢◌, ◌⊎◌, Bool, true, false, if◌then◌else◌,
}
use storage_prototype.Common.Sums.{sum_below}
use storage_prototype.Memory.{Memory}
use storage_prototype.Page.Layout.{SlotEntry, header, slot, header_size, page_size, slot_entry_size}
use storage_prototype.Page.Directory.{has_valid}
pub mod Preserve
pub mod Change

abbrev pub IsLive : SlotEntry → Type 0
IsLive e = has_valid e ≡ true

-- The bytes that a slot keeps in use.
abbrev pub live_length : SlotEntry → ℕ
live_length e = if has_valid e then e.length else 0

abbrev pub Disjoint : SlotEntry → SlotEntry → Type 0
Disjoint a b = (a.offset + a.length ≤ b.offset) ⊎ (b.offset + b.length ≤ a.offset)

-- `entries` is a directory of `count` slots below `free_end`, whose live slots name ranges
-- between the header and `free_start` that do not overlap.
pub record IsPacked (free_start free_end count : ℕ) (entries : ℕ → SlotEntry) : Type 0 where
  pub after_header : header_size ≤ free_start
  pub room : free_start ≤ free_end
  pub directory : free_end + slot_entry_size * count ≤ page_size
  pub inside :
      (i : ℕ)
      → i < count
      → IsLive (entries i)
      → (header_size ≤ (entries i).offset) × ((entries i).offset + (entries i).length ≤ free_start)
  pub disjoint :
      (i j : ℕ)
      → i < count
      → j < count
      → i ≢ j
      → IsLive (entries i)
      → IsLive (entries j)
      → Disjoint (entries i) (entries j)
  pub used : header_size + sum_below count (λ i. live_length (entries i)) ≤ free_start

abbrev pub WellFormed : Memory → Type 0
WellFormed m = IsPacked (header m).free_start (header m).free_end (header m).slot_count (slot m)

-- The byte `k` of the tuple in slot `i`.
abbrev pub tuple_byte : Memory → ℕ → ℕ → ℕ
tuple_byte m i k = m ((slot m i).offset + k)

-- Slot `i` keeps its entry and its data.
abbrev pub KeepsTuple : Memory → Memory → ℕ → Type 0
KeepsTuple m m' i =
    (slot m' i ≡ slot m i)
    × ((k : ℕ) → k < (slot m i).length → tuple_byte m' i k ≡ tuple_byte m i k)
