-- ===== src/Page/Tuples/Update.antt =====
-- `UpdateTupleInPlace`: the new data stands in the slot, and every other tuple is untouched.
use storage_prototype.Common.{
  ℕ, ◌+◌, ◌%◌, ◌^◌, ◌≤◌, ◌<◌, ◌≡◌, ◌≢◌, ◌↔◌, ◌∙◌, true, false, arith, refl, ap,
}
use storage_prototype.Common.Int.{success}
use storage_prototype.Memory.{Memory, memcpy}
use storage_prototype.Memory.Frame.{memcpy_apart, memcpy_inside}
use storage_prototype.Page.Layout.{header, slot, header_size}
use storage_prototype.Page.Layout.Laws.{
  fit_slot, header-write_slot, slot-write_slot_self, slot-write_slot_ne, write_slot_below,
  header-memcpy, slot-memcpy,
}
use storage_prototype.Page.Layout.Bounds.{header_bounds, slot_bounds, slot_fits}
use storage_prototype.Page.Image.{verify_checksum}
use storage_prototype.Page.Image.Seal.{header-seal, slot-seal, seal_above, verify-seal}
use storage_prototype.Page.Directory.{has_forwarded}
use storage_prototype.Page.Invariant.{IsLive, WellFormed, KeepsTuple, tuple_byte}
use storage_prototype.Page.Invariant.Change.{
  slot_id_fits, entry_above, SameSpace, change-WellFormed,
}
use storage_prototype.Page.Tuples.{overwrite_tuple, update_tuple_in_place}

module _ (m : Memory) (id : ℕ) (w : WellFormed m) (below : id < (header m).slot_count)
    (live : IsLive (slot m id)) (new_bytes : Memory) (new_size : ℕ)
    (smaller : new_size ≤ (slot m id).length) where
  fits : id < 1019
  fits = slot_id_fits m id w below

  abbrev copied : Memory
  copied = memcpy m (slot m id).offset new_bytes 0 new_size

  after_header : header_size ≤ (slot m id).offset
  after_header = omega (arith, w.inside id below live)

  before_end : (slot m id).offset + new_size ≤ (header m).free_end
  before_end = omega (arith, w.inside id below live, w.room)

  header-copied : header copied ≡ header m
  header-copied = header-memcpy m _ new_bytes 0 new_size after_header

  slot-copied : (i : ℕ) → i < (header m).slot_count → slot copied i ≡ slot m i
  slot-copied i p =
      slot-memcpy i m _ new_bytes 0 new_size (omega (arith, slot_id_fits m i w p))
        (omega (arith, entry_above m i w p, before_end))

  slot-overwrite_self :
      slot (overwrite_tuple m id new_bytes new_size) id ≡ record (slot m id) { length = new_size }
  unfolding overwrite_tuple
  slot-overwrite_self =
      slot-seal id _ _ fits
      ∙ slot-write_slot_self id _ copied
      ∙ (λ i. record (fit_slot (slot-copied id below i)) { length = new_size % 2 ^ 16 })
      ∙ (λ i. record (slot_fits m id i) { length = size_fits i })
    where
      size_fits : new_size % 2 ^ 16 ≡ new_size
      size_fits = omega (arith, slot_bounds m id)

  slot-overwrite_ne :
      (i : ℕ)
      → i < (header m).slot_count
      → i ≢ id
      → slot (overwrite_tuple m id new_bytes new_size) i ≡ slot m i
  unfolding overwrite_tuple
  slot-overwrite_ne i p ne =
      slot-seal i _ _ (slot_id_fits m i w p)
      ∙ slot-write_slot_ne i id _ copied (omega (arith, slot_id_fits m i w p)) (omega (arith, fits))
          ne
      ∙ slot-copied i p

  header-overwrite :
      SameSpace m (overwrite_tuple m id new_bytes new_size)
      × ((header (overwrite_tuple m id new_bytes new_size)).is_dirty ≡ true)
  unfolding overwrite_tuple
  header-overwrite =
      rw (header-seal, header-write_slot id _ copied fits, header-copied)
        (ground (arith, header_bounds m))

  data-overwrite :
      (x : ℕ)
      → header_size ≤ x
      → x < (header m).free_end
      → overwrite_tuple m id new_bytes new_size x ≡ copied x
  unfolding overwrite_tuple
  data-overwrite x lo hi =
      seal_above _ _ x lo
      ∙ write_slot_below id _ copied x (omega (arith, fits))
          (omega (arith, entry_above m id w below))

  new_data :
      (k : ℕ)
      → k < new_size
      → overwrite_tuple m id new_bytes new_size ((slot m id).offset + k) ≡ new_bytes k
  new_data k p =
      data-overwrite _ (omega (arith, after_header)) (omega (arith, before_end))
      ∙ memcpy_inside m _ new_bytes 0 new_size k p
      ∙ ap new_bytes (omega arith)

  other_data :
      (i : ℕ)
      → i < (header m).slot_count
      → i ≢ id
      → IsLive (slot m i)
      → KeepsTuple m (overwrite_tuple m id new_bytes new_size) i
  other_data i p ne l = (
    slot-overwrite_ne i p ne,
    λ k q. rw (slot-overwrite_ne i p ne) (
        data-overwrite _ (omega (arith, w.inside i p l)) (omega (arith, w.inside i p l, w.room))
        ∙ memcpy_apart m _ new_bytes 0 new_size _
            (omega (arith, w.disjoint i id p below ne l live))),
  )

  -- An update that is not longer than the tuple, of a slot in use that is not forwarded, succeeds:
  -- the slot holds exactly the new data, every other tuple is untouched, and the page is dirty,
  -- verifies and stays well formed.
  pub update_tuple_in_place_lem :
      has_forwarded (slot m id) ≡ false
      → 0 < new_size
      → let m' = (update_tuple_in_place m id new_bytes new_size).0 in
        ((update_tuple_in_place m id new_bytes new_size).1 ≡ success)
        × WellFormed m'
        × (slot m' id ≡ record (slot m id) { length = new_size })
        × ((k : ℕ) → k < new_size → tuple_byte m' id k ≡ new_bytes k)
        × ((i : ℕ) → i < (header m).slot_count → i ≢ id → IsLive (slot m i) → KeepsTuple m m' i)
        × ((header m').is_dirty ≡ true)
        × (verify_checksum m' ≡ true)
  update_tuple_in_place_lem here some_size =
      let (space, dirty) = header-overwrite in
      rw taken (
        refl,
        change-WellFormed m (overwrite_tuple m id new_bytes new_size) id w below space
            slot-overwrite_ne (λ l. rw slot-overwrite_self (live, refl, smaller)),
        slot-overwrite_self,
        λ k q. rw slot-overwrite_self (new_data k q),
        other_data,
        dirty,
        verified,
      )
    where
      taken :
          update_tuple_in_place m id new_bytes new_size
          ≡ (overwrite_tuple m id new_bytes new_size, success)
      taken = unfold update_tuple_in_place in ground arith

      verified : verify_checksum (overwrite_tuple m id new_bytes new_size) ≡ true
      verified = unfold overwrite_tuple in verify-seal _ _

-- The update succeeds exactly for a slot in use that is not forwarded and a new size from 1 up to
-- the slot's length; with any other code the page is untouched.
pub update_tuple_in_place_total :
    (m : Memory) (id : ℕ) (new_bytes : Memory) (new_size : ℕ)
    → (((update_tuple_in_place m id new_bytes new_size).1 ≡ success) ↔ (
        (0 < new_size)
        × (id < (header m).slot_count)
        × IsLive (slot m id)
        × (has_forwarded (slot m id) ≡ false)
        × (new_size ≤ (slot m id).length)))
      × ((update_tuple_in_place m id new_bytes new_size).1 ≢ success
          → (update_tuple_in_place m id new_bytes new_size).0 ≡ m)
unfolding update_tuple_in_place
update_tuple_in_place_total m id new_bytes new_size =
    ((λ e. ground arith, λ h. ground arith), λ ne. ground arith)
