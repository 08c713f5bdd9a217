-- ===== src/Page/Compaction/Keeps.antt =====
-- `CompactPage`: every tuple in use survives, moved to the front.
use storage_prototype.Common.{
  ℕ, ◌+◌, ◌-◌, ◌*◌, ◌%◌, ◌^◌, ◌≤◌, ◌<◌, ◌≡◌, inl, inr, refl, sym, ap, ◌∙◌, arith, Bool, true, false,
  if◌then◌else◌, Bool-cases, lt-or-le,
}
use storage_prototype.Common.Sums.{sum_below, sum_below_congr}
use storage_prototype.Memory.{Memory, memcpy}
use storage_prototype.Memory.Frame.{memcpy_inside}
use storage_prototype.Page.Layout.{PageHeader, SlotEntry, header, header_size, slot}
use storage_prototype.Page.Layout.Laws.{header-memcpy, slot-memcpy}
use storage_prototype.Page.Layout.Bounds.{header_bounds, slot_fits}
use storage_prototype.Page.Image.{verify_checksum, seal}
use storage_prototype.Page.Image.Seal.{header-seal, slot-seal, seal_above, verify-seal}
use storage_prototype.Page.Directory.{has_valid}
use storage_prototype.Page.Invariant.{IsLive, live_length, IsPacked, WellFormed, tuple_byte}
use storage_prototype.Page.Compaction.{
  valid_tuples, pack, assign_offsets, update_slots, clear_deleted, compact_tuples, empty_entry,
}
use storage_prototype.Page.Compaction.Packing.{
  live_below, live_below-room, moved, pack_lem, update_slots_lem, clear_deleted_lem,
}

-- The entry of slot `i` after the move.
abbrev pub relocated : Memory → ℕ → SlotEntry
relocated m i = record (slot m i) { offset = header_size + live_below m i }

-- `m'` is `m` with the tuples in use moved to the front, in the order of their slots.
pub record Compacted (m m' : Memory) : Type 0 where
  pub same_count : (header m').slot_count ≡ (header m).slot_count
  pub same_end : (header m').free_end ≡ (header m).free_end
  pub start : (header m').free_start ≡ header_size + live_below m (header m).slot_count
  pub entries : (i : ℕ) → i < (header m).slot_count → IsLive (slot m i) → slot m' i ≡ relocated m i
  pub cleared :
      (i : ℕ) → i < (header m).slot_count → has_valid (slot m i) ≡ false → slot m' i ≡ empty_entry
  pub data_kept :
      (i k : ℕ)
      → i < (header m).slot_count
      → IsLive (slot m i)
      → k < (slot m i).length
      → tuple_byte m' i k ≡ tuple_byte m i k
  pub counters : ((header m').deleted_tuple_count ≡ 0) × ((header m').fragmented_bytes ≡ 0)
  pub dirty_kept : (header m').is_dirty ≡ (header m).is_dirty
  pub verified : verify_checksum m' ≡ true

module _ (m : Memory) (w : WellFormed m) where
  abbrev count : ℕ
  count = (header m).slot_count

  few : count ≤ 1019
  few = omega (arith, w.directory, w.room, w.after_header)

  fits : header_size + live_below m count ≤ (header m).free_start
  fits = w.used

  abbrev packed : Memory × ℕ
  packed = pack m (λ _. 0) 0 (valid_tuples m count 0)

  packed_lem :
      (packed.1 ≡ live_below m count)
      × ((j k : ℕ)
          → j < count
          → IsLive (slot m j)
          → k < (slot m j).length
          → packed.0 (live_below m j + k) ≡ m ((slot m j).offset + k))
  unfolding sum_below
  packed_lem =
      let (last, kept, placed) = pack_lem m count 0 0 (λ _. 0) refl in
      (
        last ∙ ap (live_below m) (omega arith),
        λ j k p l q. placed j k (omega arith) (omega arith) l q,
      )

  abbrev copied : Memory
  copied = memcpy m header_size packed.0 0 packed.1

  abbrev updated : Memory
  updated = update_slots (assign_offsets 0 (valid_tuples m count 0)) copied

  abbrev result : Memory
  result = clear_deleted count 0 updated

  abbrev sealed : PageHeader → PageHeader
  sealed h = record h {
    free_start = (header_size + packed.1) % 2 ^ 16;
    deleted_tuple_count = 0;
    fragmented_bytes = 0;
  }

  place_fits :
      (j : ℕ)
      → j < count
      → header_size + live_below m j + live_length (slot m j) ≤ (header m).free_start
  place_fits j p = omega (arith, fits, live_below-room m j count p)

  place :
      (j : ℕ)
      → j < count
      → (header_size + live_below m j) % 2 ^ 16 % 2 ^ 16 ≡ header_size + live_below m j
  place j p = omega (arith, place_fits j p, header_bounds m)

  slot-copied : (j : ℕ) → j < count → slot copied j ≡ slot m j
  slot-copied j p =
      slot-memcpy j m header_size packed.0 0 packed.1 (omega (arith, few))
        (omega (arith, packed_lem.0, fits, w.room, w.directory))

  slot-updated_live : (j : ℕ) → j < count → IsLive (slot m j) → slot updated j ≡ relocated m j
  unfolding sum_below
  slot-updated_live j p l =
      let (_, _, inside, _) = update_slots_lem m count 0 0 copied refl (omega (arith, few)) in
      inside j (omega arith) (omega arith) l
      ∙ ap (λ (s : SlotEntry). moved s (live_below m j) (slot m j).length) (slot-copied j p)
      ∙ (λ i. record (slot_fits m j i) { offset = (place j p) i })

  slot-updated_dead : (j : ℕ) → j < count → has_valid (slot m j) ≡ false → slot updated j ≡ slot m j
  unfolding sum_below
  slot-updated_dead j p d =
      let (_, _, _, outside) = update_slots_lem m count 0 0 copied refl (omega (arith, few)) in
      outside j (omega (arith, few)) (inr (inr d)) ∙ slot-copied j p

  relocated-IsLive : (j : ℕ) → IsLive (slot m j) → IsLive (relocated m j)
  relocated-IsLive j l = l

  cleared_facts :
      (header result ≡ header m)
      × ((j : ℕ) → j < count → IsLive (slot m j) → slot result j ≡ relocated m j)
      × ((j : ℕ) → j < count → has_valid (slot m j) ≡ false → slot result j ≡ empty_entry)
      × ((x : ℕ) → x < 8192 - count * 8 → result x ≡ copied x)
  unfolding sum_below
  cleared_facts =
      let (h, below, _, _) = update_slots_lem m count 0 0 copied refl (omega (arith, few)) in
      let (h', below', kept, dead, _) = clear_deleted_lem count 0 updated (omega (arith, few)) in
      (
        h' ∙ h ∙ header-memcpy m header_size packed.0 0 packed.1 (omega arith),
        λ j p l.
            kept j (omega (arith, few)) (ap has_valid (slot-updated_live j p l) ∙ l)
            ∙ slot-updated_live j p l,
        λ j p d. dead j (omega arith) (omega arith) (ap has_valid (slot-updated_dead j p d) ∙ d),
        λ x p. below' x (omega arith) ∙ below x (omega arith),
      )

  abbrev m' : Memory
  m' = seal sealed result

  taken : compact_tuples m ≡ m'
  unfolding compact_tuples
  taken = refl

  header-m' :
      ((header m').free_start ≡ header_size + live_below m count)
      × ((header m').free_end ≡ (header m).free_end)
      × ((header m').slot_count ≡ count)
      × ((header m').deleted_tuple_count ≡ 0)
      × ((header m').fragmented_bytes ≡ 0)
      × ((header m').is_dirty ≡ (header m).is_dirty)
  header-m' =
      rw (header-seal, cleared_facts.0)
        (
          omega (arith, header_bounds m, packed_lem.0, fits),
          omega (arith, header_bounds m),
          omega (arith, header_bounds m),
          refl,
          refl,
          refl,
        )

  slot-m'_live : (j : ℕ) → j < count → IsLive (slot m j) → slot m' j ≡ relocated m j
  slot-m'_live j p l = slot-seal j sealed result (omega (arith, few)) ∙ cleared_facts.1 j p l

  slot-m'_dead : (j : ℕ) → j < count → has_valid (slot m j) ≡ false → slot m' j ≡ empty_entry
  slot-m'_dead j p d = slot-seal j sealed result (omega (arith, few)) ∙ cleared_facts.2 j p d

  live_is : (j : ℕ) → IsLive (slot m j) → live_length (slot m j) ≡ (slot m j).length
  live_is j l = ap (λ (b : Bool). if b then (slot m j).length else 0) l

  data-m' :
      (j k : ℕ)
      → j < count
      → IsLive (slot m j)
      → k < (slot m j).length
      → tuple_byte m' j k ≡ tuple_byte m j k
  data-m' j k p l q =
      ap (λ (s : SlotEntry). m' (s.offset + k)) (slot-m'_live j p l)
      ∙ seal_above sealed result (header_size + live_below m j + k) (omega arith)
      ∙ cleared_facts.3 (header_size + live_below m j + k)
          (omega (arith, place_fits j p, live_is j l, w.room, w.directory))
      ∙ ap copied (omega arith)
      ∙ memcpy_inside m header_size packed.0 0 packed.1 (live_below m j + k)
          (omega (arith, live_below-room m j count p, live_is j l, packed_lem.0))
      ∙ ap packed.0 (omega arith)
      ∙ packed_lem.1 j k p l q

  still-IsLive : (j : ℕ) → j < count → IsLive (slot m' j) → IsLive (slot m j)
  still-IsLive j p l' = elim (Bool-cases (has_valid (slot m j))) [
    | inl l ↦ l
    | inr d ↦ absurd (cc (ap has_valid (slot-m'_dead j p d), l'))
  ]

  same_length : (j : ℕ) → j < count → live_length (slot m' j) ≡ live_length (slot m j)
  same_length j p = elim (Bool-cases (has_valid (slot m j))) [
    | inl l ↦ ap live_length (slot-m'_live j p l)
    | inr d ↦
        ap live_length (slot-m'_dead j p d)
        ∙ sym (ap (λ (b : Bool). if b then (slot m j).length else 0) d)
  ]

  range :
      (j : ℕ)
      → j < count
      → IsLive (slot m' j)
      → ((slot m' j).offset ≡ header_size + live_below m j)
        × ((slot m' j).length ≡ live_length (slot m j))
  range j p l' =
      let l = still-IsLive j p l' in
      let e = slot-m'_live j p l in
      (ap (λ (s : SlotEntry). s.offset) e, ap (λ (s : SlotEntry). s.length) e ∙ sym (live_is j l))

  relocated-IsPacked :
      IsPacked (header_size + live_below m count) (header m).free_end count (slot m')
  relocated-IsPacked = record {
    after_header = omega arith;
    room = omega (arith, fits, w.room);
    directory = w.directory;
    inside = λ i p l.
        let (at, size) = range i p l in omega (arith, at, size, live_below-room m i count p);
    disjoint = λ i j p q ne l l'.
        let (at, size) = range i p l in
        let (at', size') = range j q l' in
        elim (lt-or-le i j) [
          | inl before ↦ inl (omega (arith, at, size, at', live_below-room m i j before))
          | inr after ↦ inr (omega (arith, at, at', size', live_below-room m j i (omega arith)))
        ];
    used = omega (arith, sum_below_congr count _ _ same_length);
  }

  -- The path of `CompactPage` that moves tuples, on a well-formed page: a tuple in use keeps its entry
  -- but for the offset, which is the end of the header plus the lengths of the tuples in use with
  -- smaller slot ids, and its bytes are there; other entries are zero; the free area starts behind the
  -- last tuple, the counters are 0, and the page verifies and stays well formed.
  pub compact_tuples_lem : Compacted m (compact_tuples m) × WellFormed (compact_tuples m)
  compact_tuples_lem =
      let (start, end, same, deleted, fragmented, dirty) = header-m' in
      rw taken (
        record {
          same_count = same;
          same_end = end;
          start = start;
          entries = slot-m'_live;
          cleared = slot-m'_dead;
          data_kept = λ i k p l q. data-m' i k p l q;
          counters = (deleted, fragmented);
          dirty_kept = dirty;
          verified = verify-seal sealed result;
        },
        rw (start, end, same) relocated-IsPacked,
      )
