-- ===== src/FreeSpace/Updates.antt =====
-- `UpdatePageFreeSpace` and `SetCategory`: what the map says afterwards.
use storage_prototype.Common.{
  ℕ, ◌+◌, ◌^◌, ◌≤◌, ◌<◌, ◌≡◌, ◌≢◌, inl, inr, ◌∙◌, ap, sym, refl, arith, Bool, true, ◌||◌, ◌==◌,
  ==_self, ne→==, if◌then◌else◌, List, length, get_or, set, length-set, get_or-set_self,
  get_or-set_ne, eq-or-ne, subst, lt→ltb, lt-or-le, le→ltb, Bool-cases, get_or-past, max,
}
use storage_prototype.FreeSpace.{
  FreeSpaceMap, empty_map, ensure_capacity, is_allocated, set_category, update_page_free_space,
  get_category, bytes_to_category,
}
use storage_prototype.FreeSpace.Sets.{ensure_capacity_lem, is_allocated-insert_page}
use storage_prototype.FreeSpace.Search.{Reflects}

module _ (fsm : FreeSpaceMap) (page_id category : ℕ) (fits : page_id + 1 < 2 ^ 32) where
  abbrev cache : List ℕ
  cache = ensure_capacity page_id fsm.fsm_cache

  room : page_id < length cache
  room = (ensure_capacity_lem page_id fsm.fsm_cache fits).0

  larger : length fsm.fsm_cache ≤ length cache
  larger = (ensure_capacity_lem page_id fsm.fsm_cache fits).1

  pub set_category-cache :
      (set_category fsm page_id category).fsm_cache ≡ set cache page_id category
  unfolding set_category
  set_category-cache = rw (lt→ltb _ _ room) refl

  pub set_category_allocated :
      (q : ℕ)
      → is_allocated (set_category fsm page_id category).allocated_pages q
        ≡ ((page_id == q) || is_allocated fsm.allocated_pages q)
  unfolding set_category
  set_category_allocated q =
      rw (lt→ltb _ _ room) (is_allocated-insert_page page_id q fsm.allocated_pages)

  pub set_category_length : length (set_category fsm page_id category).fsm_cache ≡ length cache
  set_category_length = ap length set_category-cache ∙ length-set cache page_id category

  set_category_page_count :
      (set_category fsm page_id category).page_count ≡ max fsm.page_count (page_id + 1)
  unfolding set_category
  set_category_page_count = rw (lt→ltb _ _ room) (ground arith)

  set_category_is_dirty : (set_category fsm page_id category).is_dirty ≡ true
  unfolding set_category
  set_category_is_dirty = rw (lt→ltb _ _ room) refl

  pub set_category_self : get_or (set_category fsm page_id category).fsm_cache page_id 0 ≡ category
  set_category_self = rw set_category-cache (get_or-set_self cache page_id category 0 room)

  pub set_category_ne :
      (q : ℕ)
      → page_id ≢ q
      → get_or (set_category fsm page_id category).fsm_cache q 0 ≡ get_or fsm.fsm_cache q 0
  set_category_ne q ne = rw set_category-cache (
      get_or-set_ne cache page_id q category 0 ne
      ∙ (ensure_capacity_lem page_id fsm.fsm_cache fits).2 q)

-- Past the end of the cache it reads 0.
pub get_category_lem :
    (fsm : FreeSpaceMap) (p : ℕ)
    → get_category fsm p
      ≡ (if is_allocated fsm.allocated_pages p then get_or fsm.fsm_cache p 0 else 0)
unfolding get_category
get_category_lem fsm p = elim (Bool-cases (is_allocated fsm.allocated_pages p)) [
  | inl e ↦ rw e (elim (lt-or-le p (length fsm.fsm_cache)) [
    | inl h ↦ rw (lt→ltb _ _ h) refl
    | inr h ↦ rw (le→ltb _ _ h) (sym (get_or-past fsm.fsm_cache p 0 h))
  ])
  | inr e ↦ rw e refl
]

-- A category that was set is what `GetCategory` returns for its page, and no other page's category
-- changes, whatever the cache had to grow; every id but the last one of 32 bits is accepted.
pub get_category-set_category :
    (fsm : FreeSpaceMap) (page_id category q : ℕ)
    → page_id + 1 < 2 ^ 32
    → get_category (set_category fsm page_id category) q
      ≡ (if page_id == q then category else get_category fsm q)
get_category-set_category fsm page_id category q fits =
    rw (get_category_lem, get_category_lem, set_category_allocated fsm page_id category fits q)
      (elim (eq-or-ne page_id q) [
        | inl e ↦
            subst
              (λ (r : ℕ).
                (if ((page_id == r) || is_allocated fsm.allocated_pages r)
                  then get_or (set_category fsm page_id category).fsm_cache r 0
                  else 0)
                ≡ (if page_id == r
                    then category
                    else if is_allocated fsm.allocated_pages r
                    then get_or fsm.fsm_cache r 0
                    else 0))
              e (rw (==_self page_id) (set_category_self fsm page_id category fits))
        | inr ne ↦ rw (ne→== _ _ ne) (rw (set_category_ne fsm page_id category fits q ne) refl)
      ])

pub update_page_free_space_lem :
    (fsm : FreeSpaceMap) (page_id available_bytes : ℕ)
    → update_page_free_space fsm page_id available_bytes
      ≡ set_category fsm page_id (bytes_to_category available_bytes)
unfolding update_page_free_space set_category
update_page_free_space_lem fsm page_id available_bytes = refl

pub empty_map-Reflects : (avail : ℕ → ℕ) → Reflects empty_map avail
unfolding is_allocated
empty_map-Reflects avail = record {
  tracked = λ p h. absurd (ground arith);
  category = λ p h. absurd (ground arith);
}

set_category-Reflects :
    (fsm : FreeSpaceMap) (avail : ℕ → ℕ) (page_id available_bytes : ℕ)
    → page_id + 1 < 2 ^ 32
    → Reflects fsm avail
    → Reflects
        (set_category fsm page_id (bytes_to_category available_bytes))
        (λ p. if page_id == p then available_bytes else avail p)
set_category-Reflects fsm avail page_id available_bytes fits r = record {
  tracked = λ p h. elim (eq-or-ne page_id p) [
    | inl e ↦
        rw (set_category_length fsm page_id _ fits)
          (omega (arith, e, room fsm page_id category fits))
    | inr ne ↦
        rw (set_category_length fsm page_id _ fits)
          (omega (arith, larger fsm page_id category fits, r.tracked p (before p ne h)))
  ];
  category = λ p h. elim (eq-or-ne page_id p) [
    | inl e ↦
        subst
          (λ (q : ℕ).
            get_or (set_category fsm page_id category).fsm_cache q 0
            ≡ bytes_to_category (if page_id == q then available_bytes else avail q))
          e (rw (==_self page_id) (set_category_self fsm page_id category fits))
    | inr ne ↦
        rw (ne→== _ _ ne)
          (set_category_ne fsm page_id category fits p ne ∙ r.category p (before p ne h))
  ];
}
  where
    category : ℕ
    category = bytes_to_category available_bytes

    before :
        (p : ℕ)
        → page_id ≢ p
        → is_allocated (set_category fsm page_id category).allocated_pages p ≡ true
        → is_allocated fsm.allocated_pages p ≡ true
    before p ne h =
        ap (λ (b : Bool). b || is_allocated fsm.allocated_pages p) (sym (ne→== _ _ ne))
        ∙ sym (set_category_allocated fsm page_id category fits p)
        ∙ h

-- `UpdatePageFreeSpace` of a page whose id is not the last one of 32 bits, on a map that reflects the
-- free space of its pages: the map reflects the space with the new amount at the page that is updated,
-- its allocated pages are those before and that page, the page count is at least that page's id plus 1,
-- and the map is dirty.
pub update_page_free_space-Reflects :
    (fsm : FreeSpaceMap) (avail : ℕ → ℕ) (page_id available_bytes : ℕ)
    → page_id + 1 < 2 ^ 32
    → Reflects fsm avail
    → let fsm' = update_page_free_space fsm page_id available_bytes in
      Reflects fsm' (λ p. if page_id == p then available_bytes else avail p)
      × ((q : ℕ)
          → is_allocated fsm'.allocated_pages q
            ≡ ((page_id == q) || is_allocated fsm.allocated_pages q))
      × (fsm'.page_count ≡ max fsm.page_count (page_id + 1))
      × (fsm'.is_dirty ≡ true)
update_page_free_space-Reflects fsm avail page_id available_bytes fits r =
    let category = bytes_to_category available_bytes in
    rw (update_page_free_space_lem fsm page_id available_bytes) (
      set_category-Reflects fsm avail page_id available_bytes fits r,
      set_category_allocated fsm page_id category fits,
      set_category_page_count fsm page_id category fits,
      set_category_is_dirty fsm page_id category fits,
    )
