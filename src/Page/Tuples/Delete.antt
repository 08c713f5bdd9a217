-- ===== src/Page/Tuples/Delete.antt =====
-- `DeleteTuple`: what it does to a slot in use, and that it refuses every other id.
use storage_prototype.Common.{
  ℕ, bit_and, ◌+◌, ◌%◌, ◌^◌, ◌≤◌, ◌<◌, ◌≡◌, ◌≢◌, ◌↔◌, ◌∙◌, true, false, arith, refl,
}
use storage_prototype.Common.Int.{success}
use storage_prototype.Memory.{Memory}
use storage_prototype.Page.Layout.{header, slot, header_size}
use storage_prototype.Page.Layout.Laws.{
  header-write_slot, slot-write_slot_self, slot-write_slot_ne, write_slot_below,
}
use storage_prototype.Page.Layout.Bounds.{header_bounds, slot_fits}
use storage_prototype.Page.Image.{verify_checksum}
use storage_prototype.Page.Image.Seal.{header-seal, slot-seal, seal_above, verify-seal}
use storage_prototype.Page.Directory.{has_valid}
use storage_prototype.Page.Directory.Flags.{clear_valid}
use storage_prototype.Page.Invariant.{IsLive, WellFormed, KeepsTuple}
use storage_prototype.Page.Invariant.Change.{
  slot_id_fits, entry_above, SameSpace, change-WellFormed,
}
use storage_prototype.Page.Tuples.{erase_slot, delete_tuple}

module _ (m : Memory) (id : ℕ) (w : WellFormed m) (below : id < (header m).slot_count) where
  fits : id < 1019
  fits = slot_id_fits m id w below

  slot-erase_self :
      slot (erase_slot m id) id
      ≡ record (slot m id) { flags = bit_and (slot m id).flags 254 % 2 ^ 8 }
  unfolding erase_slot
  slot-erase_self =
      slot-seal id _ _ fits
      ∙ slot-write_slot_self id _ m
      ∙ (λ i. record (slot_fits m id i) { flags = bit_and (slot m id).flags 254 % 2 ^ 8 })

  slot-erase_ne : (i : ℕ) → i < (header m).slot_count → i ≢ id → slot (erase_slot m id) i ≡ slot m i
  unfolding erase_slot
  slot-erase_ne i p ne =
      slot-seal i _ _ (slot_id_fits m i w p)
      ∙ slot-write_slot_ne i id _ m (omega (arith, slot_id_fits m i w p)) (omega (arith, fits)) ne

  header-erase :
      SameSpace m (erase_slot m id)
      × ((header (erase_slot m id)).deleted_tuple_count
          ≡ ((header m).deleted_tuple_count + 1) % 2 ^ 16)
      × ((header (erase_slot m id)).fragmented_bytes
          ≡ ((header m).fragmented_bytes + (slot m id).length) % 2 ^ 64)
      × ((header (erase_slot m id)).is_dirty ≡ true)
  unfolding erase_slot
  header-erase = rw (header-seal, header-write_slot id _ m fits) (ground (arith, header_bounds m))

  data-erase : (x : ℕ) → header_size ≤ x → x < (header m).free_end → erase_slot m id x ≡ m x
  unfolding erase_slot
  data-erase x lo hi =
      seal_above _ _ x lo
      ∙ write_slot_below id _ m x (omega (arith, fits)) (omega (arith, entry_above m id w below))

  dead-erase : has_valid (slot (erase_slot m id) id) ≡ false
  dead-erase = rw slot-erase_self (clear_valid (slot m id).flags)

  -- Deleting a slot in use succeeds. The slot is no longer valid, every other slot keeps its entry
  -- and its data, the counters grow by the slot and its length, the page is dirty and verifies, and
  -- it stays well formed.
  pub delete_tuple_lem :
      IsLive (slot m id)
      → let m' = (delete_tuple m id).0 in
        ((delete_tuple m id).1 ≡ success)
        × WellFormed m'
        × (has_valid (slot m' id) ≡ false)
        × ((i : ℕ) → i < (header m).slot_count → i ≢ id → IsLive (slot m i) → KeepsTuple m m' i)
        × ((header m').deleted_tuple_count ≡ ((header m).deleted_tuple_count + 1) % 2 ^ 16)
        × ((header m').fragmented_bytes
            ≡ ((header m).fragmented_bytes + (slot m id).length) % 2 ^ 64)
        × ((header m').is_dirty ≡ true)
        × (verify_checksum m' ≡ true)
  delete_tuple_lem live =
      let (space, deleted, fragmented, dirty) = header-erase in
      rw taken (
        refl,
        change-WellFormed m (erase_slot m id) id w below space slot-erase_ne
            (λ l. absurd (cc (dead-erase))),
        dead-erase,
        λ i p ne l. (
          slot-erase_ne i p ne,
          λ k q. rw (slot-erase_ne i p ne) (
              data-erase ((slot m i).offset + k) (omega (arith, w.inside i p l))
                (omega (arith, w.inside i p l, w.room))),
        ),
        deleted,
        fragmented,
        dirty,
        verified,
      )
    where
      taken : delete_tuple m id ≡ (erase_slot m id, success)
      taken = unfold delete_tuple in ground arith

      verified : verify_checksum (erase_slot m id) ≡ true
      verified = unfold erase_slot in verify-seal _ _

-- `DeleteTuple` succeeds exactly on the slots in use; with any other code the page is untouched.
pub delete_tuple_total :
    (m : Memory) (id : ℕ)
    → (((delete_tuple m id).1 ≡ success) ↔ ((id < (header m).slot_count) × IsLive (slot m id)))
      × ((delete_tuple m id).1 ≢ success → (delete_tuple m id).0 ≡ m)
unfolding delete_tuple
delete_tuple_total m id = ((λ e. ground arith, λ h. ground arith), λ ne. ground arith)
