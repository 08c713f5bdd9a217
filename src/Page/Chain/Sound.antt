-- ===== src/Page/Chain/Sound.antt =====
-- `FollowForwardingChain`: where the walk can end.
use storage_prototype.Common.{
  ℕ, zero, suc, ◌<◌, ◌≡◌, ◌≢◌, ◌⊎◌, inl, inr, refl, ap, ◌∙◌, true, false, ◌||◌, leb, ◌==◌,
  Bool-cases, eq-or-ne, ne→==, ==_self, lt-or-le, lt→leb, le→leb, List, [], ◌∷◌, ◌++◌, ◌+◌, ◌≤◌,
  arith,
}
use storage_prototype.Common.Int.{ℤ, pos, negsuc}
use storage_prototype.Memory.{Memory}
use storage_prototype.Page.Layout.{header, slot, slot_offset, slot_entry_size, page_size}
use storage_prototype.Page.Layout.Laws.{slot_inside}
use storage_prototype.Page.Directory.{TupleId, has_valid, has_forwarded, get_forwarding_pointer}
use storage_prototype.Page.Invariant.{IsLive}
use storage_prototype.Page.Chain.{
  ends_at, length_error, no_tuple, was_visited, hop, follow, follow_hops, follow_forwarding_chain,
}

-- A slot in use of the page `m`, whose entry lies inside the page, is forwarded to `t`.
pub record Points (m : Memory) (t : TupleId) : Type 0 where
  pub from : ℕ
  pub below : from < (header m).slot_count
  pub live : IsLive (slot m from)
  pub forwarded : has_forwarded (slot m from) ≡ true
  pub target : get_forwarding_pointer m from ≡ t
  pub inside : slot_offset from + slot_entry_size ≤ page_size

-- A tuple of the page itself, in use and not forwarded, whose slot entry lies inside the page.
pub record Here (m : Memory) (t : TupleId) : Type 0 where
  pub same_page : t.page_id ≡ (header m).page_id
  pub below : t.slot_id < (header m).slot_count
  pub live : IsLive (slot m t.slot_id)
  pub settled : has_forwarded (slot m t.slot_id) ≡ false
  pub inside : slot_offset t.slot_id + slot_entry_size ≤ page_size

abbrev pub Ends : Memory → TupleId → Type 0
Ends m t = (t ≡ no_tuple) ⊎ Here m t ⊎ ((t.page_id ≢ (header m).page_id) × Points m t)

abbrev Arrived : Memory → TupleId → Type 0
Arrived m t = (t.page_id ≡ (header m).page_id) ⊎ Points m t

module _ (m : Memory) (few : (header m).slot_count ≤ 1024) where
  elsewhere : (t : TupleId) → Arrived m t → t.page_id ≢ (header m).page_id → Ends m t
  elsewhere t (inl e) ne = absurd (ne e)
  elsewhere t (inr p) ne = inr (inr (ne, p))

  -- One round, when the rounds behind it end well from the target of a forwarded slot.
  hop-Ends :
      (visited : List TupleId) (t further : TupleId)
      → Arrived m t
      → (Points m (get_forwarding_pointer m t.slot_id) → Ends m further)
      → Ends m (hop m visited t further)
  unfolding hop
  hop-Ends visited t further a next = elim (Bool-cases (was_visited t visited)) [
    | inl again ↦ rw again (inl refl)
    | inr new ↦ elim (eq-or-ne t.page_id (header m).page_id) [
      | inr ne ↦ rw (new, ne→== _ _ ne) (elsewhere t a ne)
      | inl same ↦ elim (lt-or-le t.slot_id (header m).slot_count) [
        | inr past ↦ rw (new, own same, le→leb _ _ past) (inl refl)
        | inl below ↦ elim (Bool-cases (has_valid (slot m t.slot_id))) [
          | inr dead ↦ rw (new, own same, lt→leb _ _ below, dead) (inl refl)
          | inl live ↦ elim (Bool-cases (has_forwarded (slot m t.slot_id))) [
            | inl gone ↦
                rw (new, own same, lt→leb _ _ below, live, gone)
                  (next (record {
                    from = t.slot_id;
                    below = below;
                    live = live;
                    forwarded = gone;
                    target = refl;
                    inside = slot_inside t.slot_id (omega (arith, below, few));
                  }))
            | inr stays ↦
                rw (new, own same, lt→leb _ _ below, live, stays)
                  (inr (
                    inl (record {
                      same_page = same;
                      below = below;
                      live = live;
                      settled = stays;
                      inside = slot_inside t.slot_id (omega (arith, below, few));
                    })))
          ]
        ]
      ]
    ]
  ]
    where
      own : t.page_id ≡ (header m).page_id → (t.page_id == (header m).page_id) ≡ true
      own e = ap (λ (p : ℕ). p == (header m).page_id) e ∙ ==_self (header m).page_id

  follow-Ends :
      (left : ℕ) (visited : List TupleId) (t : TupleId)
      → Arrived m t
      → Ends m (follow m left visited t)
  unfolding follow
  follow-Ends zero visited t a = hop-Ends visited t no_tuple a (λ p. inl refl)
  follow-Ends (suc left) visited t a =
      hop-Ends visited t _ a
        (λ p. follow-Ends left (visited ++ (t ∷ [])) (get_forwarding_pointer m t.slot_id) (inr p))

  follow_hops-Ends : (id max_hops : ℕ) → Ends m (follow_hops m id max_hops)
  unfolding follow_hops
  follow_hops-Ends id max_hops =
      elim (Bool-cases (((header m).slot_count == 0) || leb (header m).slot_count id)) [
        | inl out ↦ rw out (inl refl)
        | inr within ↦ rw within (follow-Ends max_hops [] _ (inl refl))
      ]

  -- On a page with at most 1024 slots, whatever else it holds: a walk along forwarding pointers from a
  -- slot of the page with a negative number of hops throws the length error; any other walk ends with no
  -- tuple, or with a tuple of this page that is in use and not forwarded, or with the target, on another
  -- page, of a slot of this page that is in use and forwarded. The entry of that slot lies inside the
  -- page.
  pub follow_forwarding_chain-Ends :
      (id : ℕ) (max_hops : ℤ)
      → ((k : ℕ) × (max_hops ≡ negsuc k)
          × (id < (header m).slot_count)
          × (follow_forwarding_chain m id max_hops ≡ length_error))
        ⊎ ((t : TupleId) × (((n : ℕ) × (max_hops ≡ pos n)) ⊎ ((header m).slot_count ≤ id))
            × (follow_forwarding_chain m id max_hops ≡ ends_at t)
            × Ends m t)
  unfolding follow_forwarding_chain
  follow_forwarding_chain-Ends id (pos n) =
      inr (follow_hops m id n, inl (n, refl), refl, follow_hops-Ends id n)
  follow_forwarding_chain-Ends id (negsuc k) =
      elim (Bool-cases (((header m).slot_count == 0) || leb (header m).slot_count id)) [
        | inl out ↦ inr (no_tuple, inr (ground (arith, out)), rw out refl, inl refl)
        | inr within ↦ inl (k, refl, ground (arith, within), rw within refl)
      ]
