-- ===== src/Page/Tuples/Forward.antt =====
-- `MarkSlotForwarded`: the slot points at the target, and every other tuple is untouched.
use storage_prototype.Common.{
  ◌≢◌, ◌↔◌, ℕ, ◌+◌, ◌/◌, ◌%◌, ◌^◌, ◌≤◌, ◌<◌, ◌≡◌, ◌≢◌, ◌↔◌, ◌∙◌, bit_and, bit_or, true, arith, refl,
  ap,
}
use storage_prototype.Common.Int.{success}
use storage_prototype.Memory.{Memory}
use storage_prototype.Page.Layout.{SlotEntry, header, slot, with_slot, header_size}
use storage_prototype.Page.Layout.Laws.{
  header-write_slot, slot-write_slot_self, slot-write_slot_ne, write_slot_below,
}
use storage_prototype.Page.Layout.Bounds.{header_bounds, slot_fits}
use storage_prototype.Page.Image.{verify_checksum}
use storage_prototype.Page.Image.Seal.{header-seal, slot-seal, seal_above, verify-seal}
use storage_prototype.Page.Directory.{has_forwarded, get_forwarding_pointer, decode_pointer}
use storage_prototype.Page.Directory.Laws.{set_forwarding_pointer_lem, get_forwarding_pointer_lem}
use storage_prototype.Page.Directory.Flags.{set_forwarded, set_forwarded_keeps_valid, pointer_lem}
use storage_prototype.Page.Invariant.{IsLive, WellFormed, KeepsTuple}
use storage_prototype.Page.Invariant.Change.{
  slot_id_fits, entry_above, SameSpace, change-WellFormed,
}
use storage_prototype.Page.Tuples.{forward_slot, mark_slot_forwarded}

-- The entry of a slot that is forwarded to `p`, `s`.
abbrev pub forwarded_entry : SlotEntry → ℕ → ℕ → SlotEntry
forwarded_entry e p s = record {
  offset = e.offset;
  length = 0;
  flags = bit_or e.flags 2 % 2 ^ 8;
  next_ptr0 = bit_and p 0xFF % 2 ^ 8;
  next_ptr1 = bit_and (p / 2 ^ 8) 0xFF % 2 ^ 8;
  next_ptr2 = bit_and s 0xFF % 2 ^ 8;
}

module _ (m : Memory) (id : ℕ) (w : WellFormed m) (below : id < (header m).slot_count)
    (p s : ℕ) where
  fits : id < 1019
  fits = slot_id_fits m id w below

  abbrev emptied : Memory
  emptied = with_slot id (λ e. record e { length = 0 }) m

  slot-emptied : slot emptied id ≡ record (slot m id) { length = 0 }
  slot-emptied = slot-write_slot_self id _ m ∙ (λ i. record (slot_fits m id i) { length = 0 })

  below_emptied : id < (header emptied).slot_count
  below_emptied = rw (header-write_slot id (record (slot m id) { length = 0 }) m fits) below

  slot-forward_self : slot (forward_slot m id p s) id ≡ forwarded_entry (slot m id) p s
  unfolding forward_slot
  slot-forward_self =
      slot-seal id _ _ fits
      ∙ ap (λ (n : Memory). slot n id) (set_forwarding_pointer_lem emptied id below_emptied p s)
      ∙ slot-write_slot_self id _ emptied
      ∙ (λ i. record (forwarded_entry (slot-emptied i) p s) {
        offset = (slot-emptied i).offset % 2 ^ 16;
        length = (slot-emptied i).length % 2 ^ 16;
      })
      ∙ (λ i. record (forwarded_entry (slot m id) p s) { offset = (slot_fits m id i).offset })

  slot-forward_ne :
      (i : ℕ) → i < (header m).slot_count → i ≢ id → slot (forward_slot m id p s) i ≡ slot m i
  unfolding forward_slot
  slot-forward_ne i q ne =
      slot-seal i _ _ (slot_id_fits m i w q)
      ∙ ap (λ (n : Memory). slot n i) (set_forwarding_pointer_lem emptied id below_emptied p s)
      ∙ slot-write_slot_ne i id _ emptied (omega (arith, slot_id_fits m i w q))
          (omega (arith, fits)) ne
      ∙ slot-write_slot_ne i id _ m (omega (arith, slot_id_fits m i w q)) (omega (arith, fits)) ne

  header-forward :
      SameSpace m (forward_slot m id p s)
      × ((header (forward_slot m id p s)).deleted_tuple_count ≡ (header m).deleted_tuple_count)
      × ((header (forward_slot m id p s)).fragmented_bytes
          ≡ ((header m).fragmented_bytes + (slot m id).length) % 2 ^ 64)
      × ((header (forward_slot m id p s)).is_dirty ≡ true)
  unfolding forward_slot
  header-forward =
      rw
        (
          header-seal,
          set_forwarding_pointer_lem emptied id below_emptied p s,
          header-write_slot id _ emptied fits,
          header-write_slot id _ m fits,
        )
        (ground (arith, header_bounds m))

  data-forward : (x : ℕ) → header_size ≤ x → x < (header m).free_end → forward_slot m id p s x ≡ m x
  unfolding forward_slot
  data-forward x lo hi =
      seal_above _ _ x lo
      ∙ ap (λ (n : Memory). n x) (set_forwarding_pointer_lem emptied id below_emptied p s)
      ∙ write_slot_below id _ emptied x (omega (arith, fits))
          (omega (arith, entry_above m id w below))
      ∙ write_slot_below id _ m x (omega (arith, fits)) (omega (arith, entry_above m id w below))

  pointer-forward :
      get_forwarding_pointer (forward_slot m id p s) id
      ≡ record { page_id = p % 2 ^ 16; slot_id = s % 2 ^ 8 }
  pointer-forward =
      get_forwarding_pointer_lem (forward_slot m id p s) id (rw header-forward.0.2 below)
      ∙ (λ i. decode_pointer (slot-forward_self i))
      ∙ (λ i. record { page_id = (pointer_lem p s).0 i; slot_id = (pointer_lem p s).1 i })

  -- Forwarding a slot in use succeeds. The slot stays valid, is forwarded, gives up its bytes and
  -- points at the target with its page id cut to 16 bits and its slot id cut to 8; every other slot
  -- keeps its entry and its data, the bytes given up are counted, the number of deleted tuples is
  -- not changed, and the page is dirty, verifies and stays well formed.
  pub mark_slot_forwarded_lem :
      IsLive (slot m id)
      → let m' = (mark_slot_forwarded m id p s).0 in
        ((mark_slot_forwarded m id p s).1 ≡ success)
        × WellFormed m'
        × IsLive (slot m' id)
        × (has_forwarded (slot m' id) ≡ true)
        × ((slot m' id).length ≡ 0)
        × (get_forwarding_pointer m' id ≡ record { page_id = p % 2 ^ 16; slot_id = s % 2 ^ 8 })
        × ((i : ℕ) → i < (header m).slot_count → i ≢ id → IsLive (slot m i) → KeepsTuple m m' i)
        × ((header m').deleted_tuple_count ≡ (header m).deleted_tuple_count)
        × ((header m').fragmented_bytes
            ≡ ((header m).fragmented_bytes + (slot m id).length) % 2 ^ 64)
        × ((header m').is_dirty ≡ true)
        × (verify_checksum m' ≡ true)
  mark_slot_forwarded_lem live =
      let (space, deleted, fragmented, dirty) = header-forward in
      rw taken (
        refl,
        change-WellFormed m (forward_slot m id p s) id w below space slot-forward_ne
            (λ l. rw slot-forward_self (live, refl, omega arith)),
        rw slot-forward_self (set_forwarded_keeps_valid (slot m id).flags ∙ live),
        rw slot-forward_self (set_forwarded (slot m id).flags),
        ap (λ (e : SlotEntry). e.length) slot-forward_self,
        pointer-forward,
        λ i q ne l. (
          slot-forward_ne i q ne,
          λ k r. rw (slot-forward_ne i q ne) (
              data-forward _ (omega (arith, w.inside i q l))
                (omega (arith, w.inside i q l, w.room))),
        ),
        deleted,
        fragmented,
        dirty,
        verified,
      )
    where
      taken : mark_slot_forwarded m id p s ≡ (forward_slot m id p s, success)
      taken = unfold mark_slot_forwarded in ground arith

      verified : verify_checksum (forward_slot m id p s) ≡ true
      verified = unfold forward_slot in verify-seal _ _

-- Forwarding succeeds exactly on the slots in use; with any other code the page is untouched.
pub mark_slot_forwarded_total :
    (m : Memory) (id p s : ℕ)
    → (((mark_slot_forwarded m id p s).1 ≡ success)
        ↔ ((id < (header m).slot_count) × IsLive (slot m id)))
      × ((mark_slot_forwarded m id p s).1 ≢ success → (mark_slot_forwarded m id p s).0 ≡ m)
unfolding mark_slot_forwarded
mark_slot_forwarded_total m id p s = ((λ e. ground arith, λ h. ground arith), λ ne. ground arith)
