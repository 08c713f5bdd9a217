-- ===== src/FreeSpace/Store/Format.antt =====
-- `LoadFromDisk` on what `WriteToDisk` wrote.
use storage_prototype.Common.{
  ℕ, ◌+◌, ◌*◌, ◌%◌, ◌^◌, ◌≤◌, ◌<◌, ◌≡◌, ◌≢◌, inl, inr, refl, sym, ap, ◌∙◌, arith, min, Bool, true,
  false, ◌&&◌, ltb, ◌==◌, ==_self, ne→==, lt→ltb, le→ltb, Bool-cases, eq-or-ne, if◌then◌else◌, some,
  List, [], ◌∷◌, ◌++◌, length, get_or,
}
use storage_prototype.Memory.{Memory, byte_at}
use storage_prototype.Memory.Frame.{cut_fits, load_congr, load-store_self}
use storage_prototype.Files.{Files, Reads, IsLawful}
use storage_prototype.FreeSpace.{FreeSpaceMap, is_allocated, get_category}
use storage_prototype.FreeSpace.Updates.{get_category_lem}
use storage_prototype.FreeSpace.Store.{
  word, fsm_magic, store_ids, id_list, byte_list, insert_all, allocated_count, id_chunk,
  category_chunk, chunks, end_offset, fetch, fetch_word, chain, load_categories, load_pages,
  load_from_disk,
}
use storage_prototype.FreeSpace.Store.Chunks.{InOrder, AllRead}
use storage_prototype.FreeSpace.Store.Arrays.{
  id_list_congr, id_list-store_ids, is_allocated-insert_all, is_allocated_head, or_false,
  is_allocated_nil, get_or-byte_list,
}

-- What fits in the file: every allocated page is below the page count, which has a category for each
-- page, and the numbers fit in their fields.
pub record Storable (m : FreeSpaceMap) : Type 0 where
  pub below : (p : ℕ) → is_allocated m.allocated_pages p ≡ true → p < m.page_count
  pub cached : m.page_count ≤ length m.fsm_cache
  pub pages_fit : m.page_count < 2 ^ 32
  pub few : length m.allocated_pages < 2 ^ 32
  pub byte_sized : (p : ℕ) → get_or m.fsm_cache p 0 < 256

-- The map `m'` says of every page what `m` says.
pub record SameMap (m m' : FreeSpaceMap) : Type 0 where
  pub same_count : m'.page_count ≡ m.page_count
  pub same_pages : (p : ℕ) → is_allocated m'.allocated_pages p ≡ is_allocated m.allocated_pages p
  pub same_category : (p : ℕ) → get_category m' p ≡ get_category m p
  pub clean : m'.is_dirty ≡ false

-- The map of a `FreeSpaceMap` that was just constructed.
abbrev pub blank : FreeSpaceMap
blank = record { fsm_cache = []; allocated_pages = []; page_count = 0; is_dirty = false }

module _ (F : Files) where
  open F use {Disk, pread, file_size}

  fetch-Reads :
      (disk : Disk) (fd n offset : ℕ) (b : Memory)
      → Reads F disk fd n offset b
      → fetch F disk fd n offset ≡ some (pread disk fd n offset).0
  unfolding fetch
  fetch-Reads disk fd n offset b (full, same) = rw (full, ==_self n) refl

  fetch_word-Reads :
      (disk : Disk) (fd offset v : ℕ)
      → v < 2 ^ 32
      → Reads F disk fd 4 offset (word v)
      → fetch_word F disk fd offset ≡ some v
  unfolding fetch_word chain
  fetch_word-Reads disk fd offset v p r = rw (fetch-Reads disk fd 4 offset (word v) r) (
      ap some (
        load_congr 4 0 _ (word v) (λ x q s. r.1 x (omega arith))
        ∙ load-store_self 4 0 v (λ _. 0)
        ∙ cut_fits 4 v (omega arith)))

module _ (m : FreeSpaceMap) (s : Storable m) where
  count_lem : allocated_count m ≡ length m.allocated_pages
  unfolding allocated_count
  count_lem = omega (arith, s.few)

  pub chunks-InOrder : InOrder 0 (chunks m) (end_offset m)
  unfolding InOrder chunks id_chunk category_chunk end_offset
  chunks-InOrder = elim (Bool-cases (allocated_count m == 0)) [
    | inl none_there ↦ elim (Bool-cases (ltb 0 m.page_count && ltb 0 (length m.fsm_cache))) [
      | inl some_pages ↦ rw (none_there, some_pages) (omega arith)
      | inr no_pages ↦ rw (none_there, no_pages) (omega arith)
    ]
    | inr some_there ↦ elim (Bool-cases (ltb 0 m.page_count && ltb 0 (length m.fsm_cache))) [
      | inl some_pages ↦ rw (some_there, some_pages) (omega arith)
      | inr no_pages ↦ rw (some_there, no_pages) (omega arith)
    ]
  ]

  -- A map with an allocated page has pages, and a category for each.
  head_below : (p : ℕ) (ps : List ℕ) → m.allocated_pages ≡ p ∷ ps → p < m.page_count
  head_below p ps e = s.below p (ap (λ (qs : List ℕ). is_allocated qs p) e ∙ is_allocated_head p ps)

  positive : allocated_count m ≢ 0 → (0 < m.page_count) × (0 < length m.fsm_cache)
  positive ne = go m.allocated_pages refl
    where
      go : (ps : List ℕ) → m.allocated_pages ≡ ps → (0 < m.page_count) × (0 < length m.fsm_cache)
      go [] e = absurd (ne (count_lem ∙ ap length e))
      go (p ∷ ps) e = omega (arith, head_below p ps e, s.cached)

  nothing_there : allocated_count m ≡ 0 → (p : ℕ) → is_allocated m.allocated_pages p ≡ false
  nothing_there none_there p = go m.allocated_pages refl
    where
      go : (ps : List ℕ) → m.allocated_pages ≡ ps → is_allocated ps p ≡ false
      go [] e = is_allocated_nil p
      go (q ∷ qs) e = absurd (omega (arith, count_lem, none_there, ap length e))

  pub ids_lem :
      (b : Memory)
      → ((k : ℕ) → k < allocated_count m * 4 → b k ≡ store_ids m.allocated_pages 0 k)
      → id_list (allocated_count m) 0 b ≡ m.allocated_pages
  ids_lem b h =
      id_list_congr (allocated_count m) 0 b (store_ids m.allocated_pages 0)
        (λ k p q. h k (omega arith))
      ∙ ap (λ (n : ℕ). id_list n 0 (store_ids m.allocated_pages 0)) count_lem
      ∙ id_list-store_ids m.allocated_pages 0 (λ p a. omega (arith, s.below p a, s.pages_fit))

  -- The map that is read back when there are allocated pages.
  abbrev read_back : Memory → FreeSpaceMap
  read_back b = record {
    fsm_cache = byte_list m.page_count 0 b;
    allocated_pages = insert_all m.allocated_pages [];
    page_count = m.page_count;
    is_dirty = false;
  }

  read_back-SameMap :
      (b : Memory)
      → ((k : ℕ) → k < m.page_count → b k ≡ get_or m.fsm_cache k 0)
      → SameMap m (read_back b)
  read_back-SameMap b h = record {
    same_count = refl;
    same_pages = pages;
    same_category = λ p.
        get_category_lem (read_back b) p
        ∙ elim (Bool-cases (is_allocated m.allocated_pages p)) [
          | inl a ↦
              rw (pages p, a)
                (get_or-byte_list m.page_count 0 p b (s.below p a)
                  ∙ ap (byte_at b) (omega arith)
                  ∙ ap (λ (v : ℕ). v % 256) (h p (s.below p a))
                  ∙ omega (arith, s.byte_sized p))
          | inr n ↦ rw (pages p, n) refl
        ]
        ∙ sym (get_category_lem m p);
    clean = refl;
  }
    where
      pages :
          (p : ℕ)
          → is_allocated (insert_all m.allocated_pages []) p ≡ is_allocated m.allocated_pages p
      pages p =
          is_allocated-insert_all m.allocated_pages [] p
          ∙ or_false p (is_allocated m.allocated_pages p)

  blank-SameMap : allocated_count m ≡ 0 → SameMap m (record blank { page_count = m.page_count })
  unfolding is_allocated
  blank-SameMap none_there = record {
    same_count = refl;
    same_pages = λ p. sym (nothing_there none_there p);
    same_category = λ p.
        get_category_lem (record blank { page_count = m.page_count }) p
        ∙ ap (λ (b : Bool). if b then get_or m.fsm_cache p 0 else 0)
            (sym (nothing_there none_there p))
        ∙ sym (get_category_lem m p);
    clean = refl;
  }

  module _ (F : Files) (L : IsLawful F) where
    open F use {Disk, pread, file_size}

    load_categories-Reads :
        (disk : Disk) (fd : ℕ)
        → 0 < m.page_count
        → Reads F disk fd m.page_count (12 + allocated_count m * 4) (λ k. get_or m.fsm_cache k 0)
        → (m' : FreeSpaceMap) × (load_categories F blank disk fd m.page_count
              (allocated_count m)
              (insert_all m.allocated_pages [])
            ≡ some m')
          × SameMap m m'
    unfolding load_categories chain
    load_categories-Reads disk fd some_pages r = (
      read_back (pread disk fd m.page_count (12 + allocated_count m * 4)).0,
      rw (ne→== m.page_count 0 (omega arith), fetch-Reads F disk fd _ _ _ r) refl,
      read_back-SameMap _ r.1,
    )

    arrays-AllRead :
        (disk : Disk) (fd : ℕ)
        → allocated_count m ≢ 0
        → AllRead F L disk fd (id_chunk m ++ category_chunk m)
        → Reads F disk fd (allocated_count m * 4) 12 (store_ids m.allocated_pages 0)
          × Reads F disk fd m.page_count (12 + allocated_count m * 4) (λ k. get_or m.fsm_cache k 0)
    unfolding id_chunk category_chunk AllRead
    arrays-AllRead disk fd ne r =
        let (some_pages, some_cached) = positive ne in
        let (ids, (categories, _)) =
          rw
            (
              ne→== (allocated_count m) 0 ne,
              lt→ltb 0 m.page_count some_pages,
              lt→ltb 0 (length m.fsm_cache) some_cached,
              all_cached,
            )
            at r in
        (ids, categories)
      where
        all_cached : min m.page_count (length m.fsm_cache) ≡ m.page_count
        all_cached = omega (arith, s.cached)

    words-AllRead :
        (disk : Disk) (fd : ℕ)
        → AllRead F L disk fd (chunks m)
        → (fetch_word F disk fd 0 ≡ some fsm_magic)
          × (fetch_word F disk fd 4 ≡ some m.page_count)
          × (fetch_word F disk fd 8 ≡ some (allocated_count m))
          × AllRead F L disk fd (id_chunk m ++ category_chunk m)
          × Reads F disk fd 4 8 (word (allocated_count m))
    unfolding chunks AllRead
    words-AllRead disk fd (magic, (pages, (count, rest))) = (
      fetch_word-Reads F disk fd 0 fsm_magic (omega arith) magic,
      fetch_word-Reads F disk fd 4 m.page_count s.pages_fit pages,
      fetch_word-Reads F disk fd 8 (allocated_count m) (omega (arith, count_lem, s.few)) count,
      rest,
      count,
    )

    load_pages-AllRead :
        (disk : Disk) (fd : ℕ)
        → AllRead F L disk fd (chunks m)
        → (m' : FreeSpaceMap) × (load_pages F blank disk fd ≡ some m') × SameMap m m'
    unfolding load_pages chain
    load_pages-AllRead disk fd r =
        let (_, pages, count, rest, _) = words-AllRead disk fd r in
        elim (eq-or-ne (allocated_count m) 0) [
          | inl none_there ↦ (
            record blank { page_count = m.page_count },
            rw (pages, count, none_there) refl,
            blank-SameMap none_there,
          )
          | inr some_there ↦
              let (ids, categories) = arrays-AllRead disk fd some_there rest in
              let (m', e, same) =
                load_categories-Reads disk fd (positive some_there).0 categories in
              (
                m',
                rw
                    (
                      pages,
                      count,
                      ne→== (allocated_count m) 0 some_there,
                      fetch-Reads F disk fd _ _ _ ids,
                      ids_lem _ ids.1,
                    )
                    e,
                same,
              )
        ]

    pub load_from_disk-AllRead :
        (disk : Disk) (fd : ℕ)
        → AllRead F L disk fd (chunks m)
        → (m' : FreeSpaceMap) × (load_from_disk F blank disk (some fd) ≡ some m') × SameMap m m'
    unfolding load_from_disk chain
    load_from_disk-AllRead disk fd r =
        let (magic, _, _, _, last) = words-AllRead disk fd r in
        let (size, known, long) = L.file_size-pread disk fd 4 8 _ (omega arith) last in
        let (m', e, same) = load_pages-AllRead disk fd r in
        (m', rw (known, le→ltb size 12 (omega arith), magic) e, same)
