-- ===== src/Page/Compaction/Packing.antt =====
-- The loops of `CompactPage`, each on its own: where the data goes, and what becomes of the slots.
use storage_prototype.Common.{
  ℕ, zero, suc, ◌+◌, ◌-◌, ◌*◌, ◌%◌, ◌^◌, ◌≤◌, ◌<◌, ◌≡◌, ◌≢◌, ◌⊎◌, inl, inr, refl, sym, ap, ◌∙◌,
  arith, Bool, false, if◌then◌else◌, Bool-cases, eq-or-ne, subst,
}
use storage_prototype.Common.Sums.{sum_below}
use storage_prototype.Memory.{Memory, memcpy}
use storage_prototype.Memory.Frame.{memcpy_apart, memcpy_inside}
use storage_prototype.Page.Layout.{SlotEntry, header, header_size, slot, with_slot, write_slot}
use storage_prototype.Page.Layout.Laws.{
  fit_slot, header-write_slot, slot-write_slot_self, slot-write_slot_ne, write_slot_below,
}
use storage_prototype.Page.Directory.{has_valid}
use storage_prototype.Page.Invariant.{IsLive, live_length}
use storage_prototype.Page.Compaction.{
  valid_tuples, pack, assign_offsets, update_slots, clear_deleted, empty_entry,
}

-- The bytes in use by the slots below `j`.
abbrev pub live_below : Memory → ℕ → ℕ
live_below m j = sum_below j (λ i. live_length (slot m i))

live_below-next :
    (m : Memory) (i : ℕ) → live_below m (i + 1) ≡ live_below m i + live_length (slot m i)
unfolding sum_below
live_below-next m i = ap (live_below m) {y = suc i} (omega arith)

live_below-end : (m : Memory) (i : ℕ) → live_below m (i + zero) ≡ live_below m i
live_below-end m i = ap (live_below m) (omega arith)

live_below-shift :
    (m : Memory) (i left : ℕ) → live_below m (i + 1 + left) ≡ live_below m (i + suc left)
live_below-shift m i left = ap (live_below m) (omega arith)

-- Live slots below `k` are packed before it.
pub live_below-room :
    (m : Memory) (j k : ℕ) → j < k → live_below m j + live_length (slot m j) ≤ live_below m k
unfolding sum_below
live_below-room m j zero h = absurd (omega arith)
live_below-room m j (suc k) h = elim (eq-or-ne j k) [
  | inl e ↦ rw e (omega arith)
  | inr ne ↦ omega (arith, live_below-room m j k (omega arith))
]

next_live :
    (m : Memory) (i n : ℕ)
    → n ≡ live_below m i
    → IsLive (slot m i)
    → n + (slot m i).length ≡ live_below m (i + 1)
next_live m i n e live =
    omega
      (arith, e, live_below-next m i, ap (λ (b : Bool). if b then (slot m i).length else 0) live)

next_dead :
    (m : Memory) (i n : ℕ)
    → n ≡ live_below m i
    → has_valid (slot m i) ≡ false
    → n ≡ live_below m (i + 1)
next_dead m i n e dead =
    omega
      (arith, e, live_below-next m i, ap (λ (b : Bool). if b then (slot m i).length else 0) dead)

-- The temporary buffer after the second loop, from slot `i` on: it ends after the live bytes, keeps
-- what was there and holds each tuple at its place.
pub pack_lem :
    (m : Memory) (left i n : ℕ) (temp : Memory)
    → n ≡ live_below m i
    → let (t, last) = pack m temp n (valid_tuples m left i) in
      (last ≡ live_below m (i + left))
      × ((x : ℕ) → x < n → t x ≡ temp x)
      × ((j k : ℕ)
          → i ≤ j
          → j < i + left
          → IsLive (slot m j)
          → k < (slot m j).length
          → t (live_below m j + k) ≡ m ((slot m j).offset + k))
unfolding pack valid_tuples
pack_lem m zero i n temp e =
    (e ∙ sym (live_below-end m i), λ x p. refl, λ j k lo hi. absurd (omega arith))
pack_lem m (suc left) i n temp e = elim (Bool-cases (has_valid (slot m i))) [
  | inl live ↦
      let len = (slot m i).length in
      let temp' = memcpy temp n m (slot m i).offset len in
      let (last, kept, placed) = pack_lem m left (i + 1) (n + len) temp' (next_live m i n e live) in
      rw live (
        last ∙ live_below-shift m i left,
        λ x p. kept x (omega arith) ∙ memcpy_apart temp n m (slot m i).offset len x (omega arith),
        λ j k lo hi l q. elim (eq-or-ne i j) [
          | inl same ↦
              let t = (pack m temp' (n + len) (valid_tuples m left (i + 1))).0 in
              subst (λ (r : ℕ). t (live_below m r + k) ≡ m ((slot m r).offset + k)) same
                (ap (λ (a : ℕ). t (a + k)) (sym e)
                  ∙ kept (n + k)
                      (omega (arith, subst (λ (r : ℕ). k < (slot m r).length) (sym same) q))
                  ∙ memcpy_inside temp n m (slot m i).offset len k
                      (subst (λ (r : ℕ). k < (slot m r).length) (sym same) q))
          | inr ne ↦ placed j k (omega arith) (omega arith) l q
        ],
      )
  | inr dead ↦
      let (last, kept, placed) = pack_lem m left (i + 1) n temp (next_dead m i n e dead) in
      rw dead (
        last ∙ live_below-shift m i left,
        kept,
        λ j k lo hi l q. elim (eq-or-ne i j) [
          | inl same ↦ absurd (cc (dead, l, same))
          | inr ne ↦ placed j k (omega arith) (omega arith) l q
        ],
      )
]

-- A slot that the third loop moves.
abbrev pub moved : SlotEntry → ℕ → ℕ → SlotEntry
moved e place len = fit_slot (record e { offset = (header_size + place) % 2 ^ 16; length = len })

-- The directory after the third loop, from slot `i` on.
pub update_slots_lem :
    (m : Memory) (left i n : ℕ) (page : Memory)
    → n ≡ live_below m i
    → i + left ≤ 1019
    → let after = update_slots (assign_offsets n (valid_tuples m left i)) page in
      (header after ≡ header page)
      × ((x : ℕ) → x < 8192 - (i + left) * 8 → after x ≡ page x)
      × ((j : ℕ)
          → i ≤ j
          → j < i + left
          → IsLive (slot m j)
          → slot after j ≡ moved (slot page j) (live_below m j) (slot m j).length)
      × ((j : ℕ)
          → j < 1019
          → (j < i) ⊎ ((i + left ≤ j) ⊎ (has_valid (slot m j) ≡ false))
          → slot after j ≡ slot page j)
unfolding update_slots assign_offsets valid_tuples
update_slots_lem m zero i n page e small =
    (refl, λ x p. refl, λ j lo hi. absurd (omega arith), λ j p out. refl)
update_slots_lem m (suc left) i n page e small = elim (Bool-cases (has_valid (slot m i))) [
  | inl live ↦
      let page' =
        with_slot i
          (λ s. record s { offset = (header_size + n) % 2 ^ 16; length = (slot m i).length })
          page in
      let (same_header, below, inside, outside) =
        update_slots_lem m left (i + 1) (n + (slot m i).length) page' (next_live m i n e live)
          (omega arith) in
      rw live (
        same_header ∙ header-write_slot i _ page (omega arith),
        λ x p. below x (omega arith) ∙ write_slot_below i _ page x (omega arith) (omega arith),
        λ j lo hi l. elim (eq-or-ne i j) [
          | inl same ↦
              subst
                (λ (r : ℕ).
                  slot
                    (update_slots
                      (assign_offsets (n + (slot m i).length) (valid_tuples m left (i + 1))) page')
                    r
                  ≡ moved (slot page r) (live_below m r) (slot m r).length)
                same
                (outside i (omega arith) (inl (omega arith))
                  ∙ slot-write_slot_self i _ page
                  ∙ ap (λ (a : ℕ). moved (slot page i) a (slot m i).length) e)
          | inr ne ↦
              inside j (omega arith) (omega arith) l
              ∙ ap (λ (s : SlotEntry). moved s (live_below m j) (slot m j).length)
                  (slot-write_slot_ne j i _ page (omega arith) (omega arith) (omega arith))
        ],
        λ j p out.
            let (ne, out') = other j live out in
            outside j p out' ∙ slot-write_slot_ne j i _ page (omega arith) (omega arith) ne,
      )
  | inr dead ↦
      let (same_header, below, inside, outside) =
        update_slots_lem m left (i + 1) n page (next_dead m i n e dead) (omega arith) in
      rw dead (
        same_header,
        λ x p. below x (omega arith),
        λ j lo hi l. inside j (later j lo l dead) (omega arith) l,
        λ j p out. outside j p (wider j out),
      )
]
  where
    other :
        (j : ℕ)
        → IsLive (slot m i)
        → (j < i) ⊎ ((i + suc left ≤ j) ⊎ (has_valid (slot m j) ≡ false))
        → (j ≢ i) × ((j < i + 1) ⊎ ((i + 1 + left ≤ j) ⊎ (has_valid (slot m j) ≡ false)))
    other j live (inl lt) = (omega arith, inl (omega arith))
    other j live (inr (inl le)) = (omega arith, inr (inl (omega arith)))
    other j live (inr (inr dead)) = (λ same. absurd (cc (dead, live, same)), inr (inr dead))

    wider :
        (j : ℕ)
        → (j < i) ⊎ ((i + suc left ≤ j) ⊎ (has_valid (slot m j) ≡ false))
        → (j < i + 1) ⊎ ((i + 1 + left ≤ j) ⊎ (has_valid (slot m j) ≡ false))
    wider j (inl lt) = inl (omega arith)
    wider j (inr (inl le)) = inr (inl (omega arith))
    wider j (inr (inr dead)) = inr (inr dead)

    later : (j : ℕ) → i ≤ j → IsLive (slot m j) → has_valid (slot m i) ≡ false → i + 1 ≤ j
    later j lo l dead = elim (eq-or-ne i j) [
      | inl same ↦ absurd (cc (dead, l, same))
      | inr ne ↦ omega arith
    ]

-- The directory after the last loop, from slot `i` on.
pub clear_deleted_lem :
    (left i : ℕ) (page : Memory)
    → i + left ≤ 1019
    → let after = clear_deleted left i page in
      (header after ≡ header page)
      × ((x : ℕ) → x < 8192 - (i + left) * 8 → after x ≡ page x)
      × ((j : ℕ) → j < 1019 → IsLive (slot page j) → slot after j ≡ slot page j)
      × ((j : ℕ)
          → i ≤ j
          → j < i + left
          → has_valid (slot page j) ≡ false
          → slot after j ≡ empty_entry)
      × ((j : ℕ) → j < i → slot after j ≡ slot page j)
unfolding clear_deleted
clear_deleted_lem zero i page small =
    (refl, λ x p. refl, λ j p l. refl, λ j lo hi. absurd (omega arith), λ j p. refl)
clear_deleted_lem (suc left) i page small = elim (Bool-cases (has_valid (slot page i))) [
  | inl live ↦
      let (same_header, below, kept, cleared, before) =
        clear_deleted_lem left (i + 1) page (omega arith) in
      rw live (
        same_header,
        λ x p. below x (omega arith),
        kept,
        λ j lo hi d. cleared j (later j lo d live) (omega arith) d,
        λ j p. before j (omega arith),
      )
  | inr dead ↦
      let (same_header, below, kept, cleared, before) =
        clear_deleted_lem left (i + 1) (write_slot i empty_entry page) (omega arith) in
      rw dead (
        same_header ∙ header-write_slot i empty_entry page (omega arith),
        λ x p.
            below x (omega arith)
            ∙ write_slot_below i empty_entry page x (omega arith) (omega arith),
        λ j p l.
            let e = unwritten j p (λ same. absurd (cc (dead, l, same))) in
            kept j p (ap has_valid e ∙ l) ∙ e,
        λ j lo hi d. elim (eq-or-ne i j) [
          | inl same ↦
              subst
                (λ (r : ℕ).
                  slot (clear_deleted left (i + 1) (write_slot i empty_entry page)) r ≡ empty_entry)
                same (before i (omega arith) ∙ slot-write_slot_self i empty_entry page)
          | inr ne ↦
              cleared j (omega arith) (omega arith)
                (ap has_valid (unwritten j (omega arith) (λ same. ne (sym same))) ∙ d)
        ],
        λ j p. before j (omega arith) ∙ unwritten j (omega arith) (omega arith),
      )
]
  where
    later : (j : ℕ) → i ≤ j → has_valid (slot page j) ≡ false → IsLive (slot page i) → i + 1 ≤ j
    later j lo d live = elim (eq-or-ne i j) [
      | inl same ↦ absurd (cc (d, live, same))
      | inr ne ↦ omega arith
    ]

    unwritten : (j : ℕ) → j < 1019 → j ≢ i → slot (write_slot i empty_entry page) j ≡ slot page j
    unwritten j p ne = slot-write_slot_ne j i empty_entry page (omega arith) (omega arith) ne
