-- ===== src/Page/Compaction/Whole.antt =====
-- `CompactPage` on each of its three paths.
use storage_prototype.Common.{
  ℕ, zero, suc, ◌+◌, ◌≤◌, ◌<◌, ◌≡◌, ◌⊎◌, inl, inr, refl, sym, ap, subst, arith, true, Bool-cases,
  ==→eq, ◌==◌, eq-or-ne,
}
use storage_prototype.Common.Sums.{sum_below}
use storage_prototype.Memory.{Memory}
use storage_prototype.Page.Layout.{SlotEntry, header, header_size, slot}
use storage_prototype.Page.Layout.Bounds.{header_bounds}
use storage_prototype.Page.Image.{verify_checksum, seal}
use storage_prototype.Page.Image.Seal.{header-seal, verify-seal}
use storage_prototype.Page.Directory.Statistics.{slot_sum, dead_count, slot_sum_bounds}
use storage_prototype.Page.Invariant.{IsLive, WellFormed, tuple_byte}
use storage_prototype.Page.Compaction.{compact_tuples, compact_page}
use storage_prototype.Page.Compaction.Keeps.{Compacted, compact_tuples_lem}

-- Slot `i` keeps its length, its flags and its bytes, wherever they are now.
pub record Survives (m m' : Memory) (i : ℕ) : Type 0 where
  pub below : i < (header m').slot_count
  pub same_length : (slot m' i).length ≡ (slot m i).length
  pub same_flags : (slot m' i).flags ≡ (slot m i).flags
  pub same_bytes : (k : ℕ) → k < (slot m i).length → tuple_byte m' i k ≡ tuple_byte m i k

-- A slot in use is not counted.
live_not_dead :
    (left id i : ℕ) (m : Memory)
    → id ≤ i
    → i < id + left
    → IsLive (slot m i)
    → slot_sum dead_count left id m < left
unfolding slot_sum
live_not_dead zero id i m lo hi l = absurd (omega arith)
live_not_dead (suc left) id i m lo hi l = elim (eq-or-ne id i) [
  | inl e ↦ rw (e, l) (omega (arith, slot_sum_bounds left (i + 1) m))
  | inr ne ↦ ground (arith, live_not_dead left (id + 1) i m (omega arith) (omega arith) l)
]

module _ (m : Memory) where
  -- The page of the path where no slot is in use.
  abbrev emptied : Memory
  emptied =
      seal
        (λ g. record g {
          free_start = header_size;
          slot_count = 0;
          deleted_tuple_count = 0;
          fragmented_bytes = 0;
        })
        m

  header-emptied :
      ((header emptied).free_start ≡ 40)
      × ((header emptied).free_end ≡ (header m).free_end)
      × ((header emptied).slot_count ≡ 0)
      × ((header emptied).deleted_tuple_count ≡ 0)
      × ((header emptied).fragmented_bytes ≡ 0)
  header-emptied = rw header-seal (refl, omega (arith, header_bounds m), refl, refl, refl)

  emptied-WellFormed : WellFormed m → WellFormed emptied
  unfolding sum_below
  emptied-WellFormed w =
      let (start, end, count, _, _) = header-emptied in
      rw (start, end, count)
        (record {
          after_header = omega arith;
          room = omega (arith, w.after_header, w.room);
          directory = omega (arith, w.directory);
          inside = λ i p l. absurd (omega arith);
          disjoint = λ i j p q ne l l'. absurd (omega arith);
          used = omega arith;
        })

  pub compact_page-cases :
      (((header m).deleted_tuple_count ≡ 0) × (compact_page m ≡ m))
      ⊎ (((header m).slot_count ≡ (header m).deleted_tuple_count) × (compact_page m ≡ emptied))
      ⊎ (compact_page m ≡ compact_tuples m)
  unfolding compact_page
  compact_page-cases = elim (Bool-cases ((header m).deleted_tuple_count == 0)) [
    | inl none_deleted ↦ inl (==→eq _ _ none_deleted, rw none_deleted refl)
    | inr some_deleted ↦
        elim (Bool-cases ((header m).slot_count == (header m).deleted_tuple_count)) [
          | inl all ↦ inr (inl (==→eq _ _ all, rw (some_deleted, all) refl))
          | inr few ↦ inr (inr (rw (some_deleted, few) refl))
        ]
  ]

  tuple-Survives :
      Compacted m (compact_tuples m)
      → (i : ℕ) → i < (header m).slot_count
      → IsLive (slot m i)
      → Survives m (compact_tuples m) i
  tuple-Survives c i p l = record {
    below = subst (λ (n : ℕ). i < n) (sym c.same_count) p;
    same_length = ap (λ (s : SlotEntry). s.length) (c.entries i p l);
    same_flags = ap (λ (s : SlotEntry). s.flags) (c.entries i p l);
    same_bytes = λ k q. c.data_kept i k p l q;
  }

  -- `CompactPage` on a well-formed page whose header counts the slots that are not in use: every tuple
  -- in use keeps its slot id, its length, its flags and its bytes, the page stays well formed, and the
  -- counter of deleted tuples is 0 afterwards, on each of the three paths of the function.
  pub compact_page_lem :
      WellFormed m
      → (header m).deleted_tuple_count ≡ slot_sum dead_count (header m).slot_count 0 m
      → let m' = compact_page m in
        WellFormed m'
        × ((i : ℕ) → i < (header m).slot_count → IsLive (slot m i) → Survives m m' i)
        × ((header m').deleted_tuple_count ≡ 0)
  compact_page_lem w counted = elim compact_page-cases [
    | inl (no_deleted, e) ↦ rw e (
      w,
      λ i p l. record {
        below = p;
        same_length = refl;
        same_flags = refl;
        same_bytes = λ k q. refl;
      },
      no_deleted,
    )
    | inr (inl (all, e)) ↦ rw e (
      emptied-WellFormed w,
      λ i p l. absurd (
          omega (
            arith,
            all,
            counted,
            live_not_dead (header m).slot_count 0 i m (omega arith) (omega arith) l,
          )),
      header-emptied.3,
    )
    | inr (inr e) ↦
        let (c, w') = compact_tuples_lem m w in rw e (w', tuple-Survives c, c.counters.0)
  ]

  pub compact_page-Good :
      WellFormed m × (verify_checksum m ≡ true)
      → WellFormed (compact_page m) × (verify_checksum (compact_page m) ≡ true)
  compact_page-Good (w, v) = elim compact_page-cases [
    | inl (_, e) ↦ rw e (w, v)
    | inr (inl (_, e)) ↦ rw e (emptied-WellFormed w, verify-seal _ m)
    | inr (inr e) ↦ let (c, w') = compact_tuples_lem m w in rw e (w', c.verified)
  ]
