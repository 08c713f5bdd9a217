-- ===== src/Tests/Sample.antt =====
-- A small page: slot 0 holds five bytes, slot 1 was deleted with three.
use storage_prototype.Common.{ℕ, zero, suc, ◌+◌, ◌≤◌, ◌<◌, ◌≡◌, refl, arith, false, ◌∙◌, sym}
use storage_prototype.Common.Sums.{sum_below}
use storage_prototype.Memory.{Memory}
use storage_prototype.Page.Layout.{PageHeader, SlotEntry, header, slot, write_header, write_slot}
use storage_prototype.Page.Layout.Laws.{
  header-write_header, slot-write_header, slot-write_slot_self, slot-write_slot_ne,
}
use storage_prototype.Page.Directory.{has_valid, fresh_entry}
use storage_prototype.Page.Invariant.{IsLive, WellFormed}

abbrev pub sample_header : PageHeader
sample_header = record {
  page_id = 7;
  slot_id = 0;
  free_start = 48;
  free_end = 8176;
  slot_count = 2;
  page_type = 0;
  flags = 0;
  checksum = 0;
  deleted_tuple_count = 1;
  fragmented_bytes = 3;
  is_dirty = false;
}

abbrev pub dead_entry : SlotEntry
dead_entry = record {
  offset = 45;
  length = 3;
  flags = 0;
  next_ptr0 = 0;
  next_ptr1 = 0;
  next_ptr2 = 0;
}

pub sample : Memory
sample =
    write_header sample_header (write_slot 0 (fresh_entry 40 5) (write_slot 1 dead_entry (λ x. x)))

pub header-sample : header sample ≡ sample_header
unfolding sample
header-sample = header-write_header sample_header _

pub slot-sample_live : slot sample 0 ≡ fresh_entry 40 5
unfolding sample
slot-sample_live =
    slot-write_header 0 _ _ (omega arith) ∙ slot-write_slot_self 0 (fresh_entry 40 5) _

pub slot-sample_dead : slot sample 1 ≡ dead_entry
unfolding sample
slot-sample_dead =
    slot-write_header 1 _ _ (omega arith)
    ∙ slot-write_slot_ne 1 0 _ _ (omega arith) (omega arith) (omega arith)
    ∙ slot-write_slot_self 1 dead_entry _

pub live : IsLive (slot sample 0)
live = rw slot-sample_live refl

pub dead : has_valid (slot sample 1) ≡ false
dead = rw slot-sample_dead refl

pub sample-WellFormed : WellFormed sample
unfolding sum_below
sample-WellFormed = rw header-sample (record {
  after_header = omega arith;
  room = omega arith;
  directory = omega arith;
  inside = inside;
  disjoint = λ i j p q ne l l'. absurd (ne (only i p l ∙ sym (only j q l')));
  used = rw (slot-sample_live, slot-sample_dead) (omega arith);
})
  where
    only : (i : ℕ) → i < 2 → IsLive (slot sample i) → i ≡ 0
    only zero p l = refl
    only (suc zero) p l = absurd (cc (dead))
    only (suc (suc i)) p l = absurd (omega arith)

    inside :
        (i : ℕ)
        → i < 2
        → IsLive (slot sample i)
        → (40 ≤ (slot sample i).offset) × ((slot sample i).offset + (slot sample i).length ≤ 48)
    inside i p l = rw (only i p l, slot-sample_live) (omega arith)
