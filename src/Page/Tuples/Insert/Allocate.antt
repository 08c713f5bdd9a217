-- ===== src/Page/Tuples/Insert/Allocate.antt =====
-- Both ways in which `InsertTuple` gets a slot.
use storage_prototype.Common.{
  ℕ, suc, ◌+◌, ◌-◌, ◌*◌, ◌%◌, ◌^◌, ◌≤◌, ◌<◌, ◌≡◌, ◌≢◌, ◌∙◌, false, arith, refl, ap,
}
use storage_prototype.Common.Sums.{sum_below, sum_below_congr, sum_below_update}
use storage_prototype.Memory.{Memory}
use storage_prototype.Page.Layout.{SlotEntry, header, slot, header_size, slot_entry_size}
use storage_prototype.Page.Layout.Laws.{
  fit_slot, header-write_header, header-write_slot, slot-write_header, slot-write_slot_self,
  slot-write_slot_ne, write_slot_below, write_header_above, slot_offset_lem,
}
use storage_prototype.Page.Layout.Bounds.{header_bounds}
use storage_prototype.Page.Directory.{has_valid, fresh_entry, install_slot}
use storage_prototype.Page.Invariant.{live_length, WellFormed}
use storage_prototype.Page.Invariant.Change.{slot_id_fits, entry_above}
use storage_prototype.Page.Tuples.{reuse_slot}
use storage_prototype.Page.Tuples.Insert.{Allocated}

-- An entry for a range of the page is stored as it is.
fresh_fits :
    (offset size : ℕ)
    → offset < 2 ^ 16
    → size < 2 ^ 16
    → fit_slot (fresh_entry offset size) ≡ fresh_entry offset size
fresh_fits offset size p q =
    λ i. record (fresh_entry offset size) { offset = offset_fits i; length = size_fits i }
  where
    offset_fits : offset % 2 ^ 16 ≡ offset
    offset_fits = omega arith

    size_fits : size % 2 ^ 16 ≡ size
    size_fits = omega arith

module _ (m : Memory) (size : ℕ) (w : WellFormed m) where
  abbrev start : ℕ
  start = (header m).free_start

  abbrev count : ℕ
  count = (header m).slot_count

  module _ (id : ℕ) (below : id < count) (dead : has_valid (slot m id) ≡ false)
      (room : start + size ≤ (header m).free_end) where
    fits : id < 1019
    fits = slot_id_fits m id w below

    header-reuse :
        ((header (reuse_slot m id start size)).free_start ≡ start)
        × ((header (reuse_slot m id start size)).free_end ≡ (header m).free_end)
        × ((header (reuse_slot m id start size)).slot_count ≡ count)
        × ((header (reuse_slot m id start size)).is_dirty ≡ (header m).is_dirty)
        × ((header (reuse_slot m id start size)).deleted_tuple_count
            ≡ ((header m).deleted_tuple_count + 2 ^ 16 - 1) % 2 ^ 16)
    unfolding reuse_slot
    header-reuse =
        rw (header-write_header, header-write_slot id _ m fits) (ground (arith, header_bounds m))

    slot-reuse_self : slot (reuse_slot m id start size) id ≡ fresh_entry start size
    unfolding reuse_slot
    slot-reuse_self =
        slot-write_header id _ _ fits
        ∙ slot-write_slot_self id (fresh_entry start size) m
        ∙ fresh_fits start size (omega (arith, w.directory)) (omega (arith, w.directory))

    slot-reuse_ne : (i : ℕ) → i < count → i ≢ id → slot (reuse_slot m id start size) i ≡ slot m i
    unfolding reuse_slot
    slot-reuse_ne i p ne =
        slot-write_header i _ _ (slot_id_fits m i w p)
        ∙ slot-write_slot_ne i id _ m (omega (arith, slot_id_fits m i w p)) (omega (arith, fits)) ne

    pub reuse_slot-Allocated : Allocated m (reuse_slot m id start size) size id
    reuse_slot-Allocated =
        let (same_start, same_end, same_count, same_dirty, _) = header-reuse in
        record {
          in_range = rw same_count below;
          was_free = λ _. dead;
          count_fits = rw same_count (omega (arith, w.directory, w.room, w.after_header));
          same_start = same_start;
          entry = slot-reuse_self;
          covers = λ i p. rw same_count p;
          others = λ i p ne. let p' = rw same_count at p in (slot-reuse_ne i p' ne, p');
          below = λ x lo hi. reuse_below x lo hi;
          room = rw same_end room;
          directory = rw (same_end, same_count) w.directory;
          grown = rw same_count grown;
          same_dirty = same_dirty;
        }
      where
        reuse_below : (x : ℕ) → header_size ≤ x → x < start → reuse_slot m id start size x ≡ m x
        reuse_below x lo hi =
            unfold reuse_slot in
            write_header_above _ _ x lo
            ∙ write_slot_below id _ m x (omega (arith, fits))
                (omega (arith, entry_above m id w below, w.room))

        dead_length : live_length (slot m id) ≡ 0
        dead_length = rw dead refl

        grown :
            sum_below count (λ i. live_length (slot (reuse_slot m id start size) i))
            ≡ sum_below count (λ i. live_length (slot m i)) + size
        grown = omega (
          arith,
          sum_below_update count id (λ i. live_length (slot m i))
              (λ i. live_length (slot (reuse_slot m id start size) i)) below
              (λ i p ne. ap (λ (e : SlotEntry). live_length e) (slot-reuse_ne i p ne)),
          ap (λ (e : SlotEntry). live_length e) slot-reuse_self,
          dead_length,
        )

  module _ (room : start + size + slot_entry_size ≤ (header m).free_end) where
    abbrev after : Memory
    after = install_slot m start size

    new_fits : count < 1019
    new_fits = omega (arith, w.directory, w.after_header)

    header-install :
        ((header after).free_start ≡ start)
        × ((header after).free_end ≡ 8192 - (count + 1) * 8)
        × ((header after).slot_count ≡ suc count)
        × ((header after).is_dirty ≡ (header m).is_dirty)
    unfolding install_slot
    header-install =
        rw
          (
            header-write_header,
            header-write_slot count _ m new_fits,
            slot_offset_lem count (omega (arith, new_fits)),
          )
          (omega (arith, header_bounds m), omega arith, omega (arith, new_fits), refl)

    slot-install_self : slot after count ≡ fresh_entry start size
    unfolding install_slot
    slot-install_self =
        slot-write_header count _ _ new_fits
        ∙ slot-write_slot_self count (fresh_entry start size) m
        ∙ fresh_fits start size (omega (arith, w.directory)) (omega (arith, w.directory))

    slot-install_ne : (i : ℕ) → i < count → slot after i ≡ slot m i
    unfolding install_slot
    slot-install_ne i p =
        slot-write_header i _ _ (slot_id_fits m i w p)
        ∙ slot-write_slot_ne i count _ m (omega (arith, slot_id_fits m i w p))
            (omega (arith, new_fits)) (omega arith)

    install_below : (x : ℕ) → header_size ≤ x → x < start → after x ≡ m x
    unfolding install_slot
    install_below x lo hi =
        write_header_above _ _ x lo
        ∙ write_slot_below count _ m x (omega (arith, new_fits)) (omega (arith, w.directory))

    grown_by_new :
        sum_below (suc count) (λ i. live_length (slot after i))
        ≡ sum_below count (λ i. live_length (slot m i)) + size
    unfolding sum_below
    grown_by_new = omega (
      arith,
      sum_below_congr count (λ i. live_length (slot after i)) (λ i. live_length (slot m i))
          (λ i p. ap (λ (e : SlotEntry). live_length e) (slot-install_ne i p)),
      ap (λ (e : SlotEntry). live_length e) slot-install_self,
    )

    pub install_slot-Allocated : Allocated m after size count
    install_slot-Allocated =
        let (same_start, new_end, new_count, same_dirty) = header-install in
        record {
          in_range = omega arith;
          was_free = λ p. absurd (omega arith);
          count_fits = omega (arith, new_fits);
          same_start = same_start;
          entry = slot-install_self;
          covers = λ i p. omega arith;
          others = λ i p ne. let p' : i < count = omega arith in (slot-install_ne i p', p');
          below = install_below;
          room = omega (arith, w.directory);
          directory = omega (arith, new_fits);
          grown = rw new_count grown_by_new;
          same_dirty = same_dirty;
        }
