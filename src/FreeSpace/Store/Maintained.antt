-- ===== src/FreeSpace/Store/Maintained.antt =====
-- The updates of the map keep it fit for its file.
use storage_prototype.Common.{
  ℕ, ◌+◌, ◌^◌, ◌≤◌, ◌<◌, ◌≡◌, ◌≢◌, ◌⊎◌, inl, inr, refl, sym, ap, ◌∙◌, subst, arith, Bool, true,
  ◌||◌, Bool-cases, eq-or-ne, ne→==, lt→ltb, length, get_or, if◌then◌else◌, leb, lt-or-le, lt→leb,
  le→leb,
}
use storage_prototype.FreeSpace.{
  FreeSpaceMap, empty_map, insert_page, is_allocated, set_category, update_page_free_space,
  bytes_to_category,
}
use storage_prototype.FreeSpace.Category.{bytes_to_category_order}
use storage_prototype.FreeSpace.Sets.{ensure_capacity_lem}
use storage_prototype.FreeSpace.Updates.{
  set_category_allocated, set_category_length, set_category_self, set_category_ne,
  update_page_free_space_lem,
}
use storage_prototype.FreeSpace.Store.Format.{Storable}

module _ (m : FreeSpaceMap) (page_id category : ℕ) (fits : page_id + 1 < 2 ^ 32) where
  count-set_category :
      (set_category m page_id category).page_count
      ≡ (if leb m.page_count page_id then page_id + 1 else m.page_count)
  unfolding set_category
  count-set_category = elim (lt-or-le page_id m.page_count) [
    | inl h ↦ rw (lt→ltb _ _ (ensure_capacity_lem page_id m.fsm_cache fits).0, lt→leb _ _ h) refl
    | inr h ↦
        rw (lt→ltb _ _ (ensure_capacity_lem page_id m.fsm_cache fits).0, le→leb _ _ h) (omega arith)
  ]

  counted :
      (m.page_count ≤ (set_category m page_id category).page_count)
      × (page_id < (set_category m page_id category).page_count)
      × ((set_category m page_id category).page_count ≤ m.page_count + page_id + 1)
      × (((set_category m page_id category).page_count ≡ page_id + 1)
          ⊎ ((set_category m page_id category).page_count ≡ m.page_count))
  counted = elim (lt-or-le page_id m.page_count) [
    | inl h ↦
        rw (count-set_category, lt→leb _ _ h) (omega arith, omega arith, omega arith, inr refl)
    | inr h ↦
        rw (count-set_category, le→leb _ _ h) (omega arith, omega arith, omega arith, inl refl)
  ]

  allocated_more :
      length (set_category m page_id category).allocated_pages ≤ length m.allocated_pages + 1
  unfolding set_category insert_page
  allocated_more =
      rw (lt→ltb _ _ (ensure_capacity_lem page_id m.fsm_cache fits).0)
        (elim (Bool-cases (is_allocated m.allocated_pages page_id)) [
          | inl a ↦ rw a (omega arith)
          | inr n ↦ rw n (omega arith)
        ])

  set_category-Storable :
      category < 256
      → length m.allocated_pages + 1 < 2 ^ 32
      → Storable m
      → Storable (set_category m page_id category)
  set_category-Storable small few s = record {
    below = λ p a. elim (eq-or-ne page_id p) [
      | inl e ↦ omega (arith, e, counted)
      | inr ne ↦ omega (arith, counted, s.below p (before p ne a))
    ];
    cached = omega (
      arith,
      counted,
      set_category_length m page_id category fits,
      ensure_capacity_lem page_id m.fsm_cache fits,
      s.cached,
    );
    pages_fit = omega (arith, counted, s.pages_fit);
    few = omega (arith, allocated_more, few);
    byte_sized = λ p. elim (eq-or-ne page_id p) [
      | inl e ↦
          subst (λ (q : ℕ). get_or (set_category m page_id category).fsm_cache q 0 < 256) e
            (omega (arith, set_category_self m page_id category fits))
      | inr ne ↦ omega (arith, set_category_ne m page_id category fits p ne, s.byte_sized p)
    ];
  }
    where
      before :
          (p : ℕ)
          → page_id ≢ p
          → is_allocated (set_category m page_id category).allocated_pages p ≡ true
          → is_allocated m.allocated_pages p ≡ true
      before p ne a =
          ap (λ (b : Bool). b || is_allocated m.allocated_pages p) (sym (ne→== _ _ ne))
          ∙ sym (set_category_allocated m page_id category fits p)
          ∙ a

-- `UpdatePageFreeSpace` of any page but the last id of 32 bits keeps a map fit for its file: every
-- allocated page lies below the page count, the cache has a byte for each page below it, and the
-- numbers fit their fields, as long as one more allocated page can be counted in 32 bits.
pub update_page_free_space-Storable :
    (m : FreeSpaceMap) (page_id available_bytes : ℕ)
    → page_id + 1 < 2 ^ 32
    → length m.allocated_pages + 1 < 2 ^ 32
    → Storable m
    → Storable (update_page_free_space m page_id available_bytes)
update_page_free_space-Storable m page_id available_bytes fits few s =
    let e = update_page_free_space_lem m page_id available_bytes in
    subst Storable (sym e) (
      set_category-Storable m page_id (bytes_to_category available_bytes) fits
        (omega (arith, bytes_to_category_order available_bytes 0)) few s)

pub empty_map-Storable : Storable empty_map
unfolding is_allocated
empty_map-Storable = record {
  below = λ p a. absurd (cc (a));
  cached = omega arith;
  pages_fit = omega arith;
  few = omega arith;
  byte_sized = λ p. omega arith;
}
