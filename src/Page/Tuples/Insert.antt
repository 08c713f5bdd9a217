-- ===== src/Page/Tuples/Insert.antt =====
-- `InsertTuple`: what it promises, and the step from an allocated slot to the inserted tuple.
use storage_prototype.Common.{
  ℕ, ◌+◌, ◌*◌, ◌%◌, ◌^◌, ◌≤◌, ◌<◌, ◌≡◌, ◌≢◌, ◌∙◌, Bool, true, false, arith, refl, sym, ap,
}
use storage_prototype.Common.Sums.{sum_below, sum_below_congr}
use storage_prototype.Memory.{Memory, memcpy}
use storage_prototype.Memory.Frame.{memcpy_apart, memcpy_inside}
use storage_prototype.Page.Layout.{SlotEntry, header, slot, header_size, page_size, slot_entry_size}
use storage_prototype.Page.Layout.Laws.{header-memcpy, slot-memcpy}
use storage_prototype.Page.Layout.Bounds.{header_bounds}
use storage_prototype.Page.Image.{verify_checksum}
use storage_prototype.Page.Image.Seal.{header-seal, slot-seal, seal_above, verify-seal}
use storage_prototype.Page.Directory.{has_valid, fresh_entry}
use storage_prototype.Page.Invariant.{IsLive, live_length, WellFormed, KeepsTuple, tuple_byte}
use storage_prototype.Page.Invariant.Preserve.{append-IsPacked}
use storage_prototype.Page.Invariant.Change.{slot_id_fits}
use storage_prototype.Page.Tuples.{write_tuple}
pub mod Allocate
pub mod Outcome

-- `m'` is `m` with the tuple in slot `id`, which was not in use.
pub record Inserted (m : Memory) (tuple : Memory) (size : ℕ) (m' : Memory) (id : ℕ) : Type 0 where
  pub well_formed : WellFormed m'
  pub in_range : id < (header m').slot_count
  pub was_free : id < (header m).slot_count → has_valid (slot m id) ≡ false
  pub entry : slot m' id ≡ fresh_entry (header m).free_start size
  pub stored : (k : ℕ) → k < size → tuple_byte m' id k ≡ tuple k
  pub others : (i : ℕ) → i < (header m).slot_count → i ≢ id → IsLive (slot m i) → KeepsTuple m m' i
  pub start : (header m').free_start ≡ (header m).free_start + size
  pub dirty_kept : (header m').is_dirty ≡ (header m).is_dirty
  pub verified : verify_checksum m' ≡ true

-- `n` is `m` with slot `id` allocated for `size` bytes at the end of the data area.
pub record Allocated (m n : Memory) (size id : ℕ) : Type 0 where
  pub in_range : id < (header n).slot_count
  pub was_free : id < (header m).slot_count → has_valid (slot m id) ≡ false
  pub count_fits : (header n).slot_count < 1020
  pub same_start : (header n).free_start ≡ (header m).free_start
  pub entry : slot n id ≡ fresh_entry (header m).free_start size
  pub covers : (i : ℕ) → i < (header m).slot_count → i < (header n).slot_count
  pub others :
      (i : ℕ)
      → i < (header n).slot_count
      → i ≢ id
      → (slot n i ≡ slot m i) × (i < (header m).slot_count)
  pub below : (x : ℕ) → header_size ≤ x → x < (header m).free_start → n x ≡ m x
  pub room : (header m).free_start + size ≤ (header n).free_end
  pub directory : (header n).free_end + slot_entry_size * (header n).slot_count ≤ page_size
  pub grown :
      sum_below (header n).slot_count (λ i. live_length (slot n i))
      ≡ sum_below (header m).slot_count (λ i. live_length (slot m i)) + size
  pub same_dirty : (header n).is_dirty ≡ (header m).is_dirty

module _ (m n tuple : Memory) (size id : ℕ) (w : WellFormed m) (a : Allocated m n size id) where
  abbrev start : ℕ
  start = (header m).free_start

  abbrev copied : Memory
  copied = memcpy n start tuple 0 size

  header-copied : header copied ≡ header n
  header-copied = header-memcpy n start tuple 0 size w.after_header

  slot-copied : (i : ℕ) → i < (header n).slot_count → slot copied i ≡ slot n i
  slot-copied i p =
      slot-memcpy i n start tuple 0 size (omega (arith, a.count_fits))
        (omega (arith, a.room, a.directory))

  slot-write :
      (i : ℕ) → i < (header n).slot_count → slot (write_tuple n start tuple size) i ≡ slot n i
  unfolding write_tuple
  slot-write i p =
      slot-seal i _ copied (omega (arith, a.room, a.directory, w.after_header)) ∙ slot-copied i p

  header-write :
      ((header (write_tuple n start tuple size)).free_start ≡ start + size)
      × ((header (write_tuple n start tuple size)).free_end ≡ (header n).free_end)
      × ((header (write_tuple n start tuple size)).slot_count ≡ (header n).slot_count)
      × ((header (write_tuple n start tuple size)).is_dirty ≡ (header m).is_dirty)
  unfolding write_tuple
  header-write =
      rw (header-seal, header-copied)
        (
          omega (arith, a.same_start, a.room, a.directory),
          omega (arith, header_bounds n),
          omega (arith, header_bounds n),
          a.same_dirty,
        )

  data-write : (x : ℕ) → header_size ≤ x → write_tuple n start tuple size x ≡ copied x
  unfolding write_tuple
  data-write x lo = seal_above _ copied x lo

  write-WellFormed : WellFormed (write_tuple n start tuple size)
  write-WellFormed =
      rw (header-write.0, header-write.1, header-write.2)
        (append-IsPacked w (slot (write_tuple n start tuple size)) id size (header n).free_end
          (header n).slot_count (rw (slot-write id a.in_range, a.entry) refl)
          (rw (slot-write id a.in_range, a.entry) refl)
          (rw (slot-write id a.in_range, a.entry) refl)
          (λ i p ne. rw (slot-write i p) (a.others i p ne)) a.room a.directory
          (sum_below_congr (header n).slot_count
              (λ i. live_length (slot (write_tuple n start tuple size) i))
              (λ i. live_length (slot n i))
              (λ i p. ap (λ (e : SlotEntry). live_length e) (slot-write i p))
            ∙ a.grown))

  pub write_tuple-Inserted : Inserted m tuple size (write_tuple n start tuple size) id
  write_tuple-Inserted = record {
    well_formed = write-WellFormed;
    in_range = rw header-write.2 a.in_range;
    was_free = a.was_free;
    entry = slot-write id a.in_range ∙ a.entry;
    stored = λ k p.
        rw (slot-write id a.in_range, a.entry)
          (data-write _ (omega (arith, w.after_header))
            ∙ memcpy_inside n start tuple 0 size k p
            ∙ ap tuple (omega arith));
    others = λ i p ne l.
        let (same, _) = a.others i (a.covers i p) ne in
        (
          slot-write i (a.covers i p) ∙ same,
          λ k q.
              rw (slot-write i (a.covers i p), same)
                (data-write _ (omega (arith, w.inside i p l))
                  ∙ memcpy_apart n start tuple 0 size _ (omega (arith, w.inside i p l))
                  ∙ a.below _ (omega (arith, w.inside i p l)) (omega (arith, w.inside i p l))),
        );
    start = header-write.0;
    dirty_kept = header-write.3;
    verified = unfold write_tuple in verify-seal _ copied;
  }
