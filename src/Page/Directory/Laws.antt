-- ===== src/Page/Directory/Laws.antt =====
-- The operations of the slot directory on slots that are in range.
use storage_prototype.Common.{
  ℕ, zero, suc, ◌+◌, ◌/◌, ◌^◌, ◌≤◌, ◌<◌, ◌≡◌, ◌⊎◌, inl, inr, bit_and, bit_or, true, false, arith,
  refl, Bool-cases, lt→leb, eq-or-ne,
}
use storage_prototype.Memory.{Memory}
use storage_prototype.Page.Layout.{header, slot, with_slot, slot_offset, invalid_slot_id}
use storage_prototype.Page.Directory.{
  has_valid, is_slot_valid, set_forwarding_pointer, get_forwarding_pointer, decode_pointer,
  find_deleted_from, find_deleted_slot, add_slot, install_slot,
}

module _ (m : Memory) (id : ℕ) (below : id < (header m).slot_count) where
  pub is_slot_valid_lem : is_slot_valid m id ≡ has_valid (slot m id)
  unfolding is_slot_valid
  is_slot_valid_lem = ground arith

  pub set_forwarding_pointer_lem :
      (p s : ℕ)
      → set_forwarding_pointer m id p s
        ≡ with_slot id
            (λ e. record e {
              next_ptr0 = bit_and p 0xFF;
              next_ptr1 = bit_and (p / 2 ^ 8) 0xFF;
              next_ptr2 = bit_and s 0xFF;
              flags = bit_or e.flags 2;
            })
            m
  unfolding set_forwarding_pointer
  set_forwarding_pointer_lem p s = ground arith

  pub get_forwarding_pointer_lem : get_forwarding_pointer m id ≡ decode_pointer (slot m id)
  unfolding get_forwarding_pointer
  get_forwarding_pointer_lem = ground arith

-- What `FindDeletedSlot` answers when it starts at `id`.
abbrev pub Finds : Memory → ℕ → ℕ → Type 0
Finds m id r =
    ((r ≡ invalid_slot_id)
      × ((i : ℕ) → id ≤ i → i < (header m).slot_count → has_valid (slot m i) ≡ true))
    ⊎ ((id ≤ r)
        × (r < (header m).slot_count)
        × (has_valid (slot m r) ≡ false)
        × ((i : ℕ) → id ≤ i → i < r → has_valid (slot m i) ≡ true))

find_deleted_from-Finds :
    (m : Memory) (left id : ℕ)
    → id + left ≡ (header m).slot_count
    → Finds m id (find_deleted_from m left id)
unfolding find_deleted_from
find_deleted_from-Finds m zero id e = inl (refl, λ i p q. absurd (omega arith))
find_deleted_from-Finds m (suc left) id e = elim (Bool-cases (has_valid (slot m id))) [
  | inl live ↦
      rw (valid, live)
        (elim (find_deleted_from-Finds m left (id + 1) (omega arith)) [
          | inl (r, all) ↦ inl (r, λ i p q. here live i p (λ h. all i h q))
          | inr (lo, hi, dead, all) ↦
              inr (omega arith, hi, dead, λ i p q. here live i p (λ h. all i h q))
        ])
  | inr dead ↦
      rw (valid, dead) (inr (omega arith, omega arith, dead, λ i p q. absurd (omega arith)))
]
  where
    valid : is_slot_valid m id ≡ has_valid (slot m id)
    valid = is_slot_valid_lem m id (omega arith)

    here :
        has_valid (slot m id) ≡ true
        → (i : ℕ) → id ≤ i
        → (id + 1 ≤ i → has_valid (slot m i) ≡ true)
        → has_valid (slot m i) ≡ true
    here live i p later = elim (eq-or-ne i id) [
      | inl same ↦ rw same live
      | inr ne ↦ later (omega arith)
    ]

-- The first slot that is not in use, or the invalid id if all are.
pub find_deleted_slot-Finds : (m : Memory) → Finds m 0 (find_deleted_slot m)
unfolding find_deleted_slot
find_deleted_slot-Finds m = find_deleted_from-Finds m (header m).slot_count 0 (omega arith)

pub add_slot_lem :
    (m : Memory) (offset length : ℕ)
    → (header m).free_start < slot_offset (header m).slot_count
    → add_slot m offset length ≡ (install_slot m offset length, (header m).slot_count)
unfolding add_slot
add_slot_lem m offset length h = rw (lt→leb _ _ h) refl
