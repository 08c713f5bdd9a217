-- ===== src/Page/Layout/Laws.antt =====
-- Struct accesses that overlap read back, and those that do not leave one another alone.
use storage_prototype.Common.{
  ℕ, ◌+◌, ◌-◌, ◌*◌, ◌%◌, ◌^◌, ◌≤◌, ◌<◌, ◌≡◌, ◌≢◌, ◌⊎◌, refl, ◌∙◌, arith, Bool, true, false, not,
  ◌==◌,
}
use storage_prototype.Memory.{Memory, byte_at, store, load, poke, memcpy}
use storage_prototype.Memory.Frame.{
  cut, store_apart, load_congr, load_congr_byte, load-store_self, load-store-Apart, memcpy_apart,
}
use storage_prototype.Page.Layout.{
  PageHeader, SlotEntry, header, write_header, bool_byte, slot_offset, slot, read_slot, write_slot,
  store_slot, slot_entry_size, page_size,
}

-- What the fields of a header keep of the numbers stored there.
abbrev pub fit_header : PageHeader → PageHeader
fit_header h = record {
  page_id = h.page_id % 2 ^ 16;
  slot_id = h.slot_id % 2 ^ 16;
  free_start = h.free_start % 2 ^ 16;
  free_end = h.free_end % 2 ^ 16;
  slot_count = h.slot_count % 2 ^ 16;
  page_type = h.page_type % 2 ^ 8;
  flags = h.flags % 2 ^ 8;
  checksum = h.checksum % 2 ^ 32;
  deleted_tuple_count = h.deleted_tuple_count % 2 ^ 16;
  fragmented_bytes = h.fragmented_bytes % 2 ^ 64;
  is_dirty = h.is_dirty;
}

abbrev pub fit_slot : SlotEntry → SlotEntry
fit_slot e = record {
  offset = e.offset % 2 ^ 16;
  length = e.length % 2 ^ 16;
  flags = e.flags % 2 ^ 8;
  next_ptr0 = e.next_ptr0 % 2 ^ 8;
  next_ptr1 = e.next_ptr1 % 2 ^ 8;
  next_ptr2 = e.next_ptr2 % 2 ^ 8;
}

cut1 : (v : ℕ) → cut 1 v ≡ v % 2 ^ 8
cut1 v = omega arith

cut2 : (v : ℕ) → cut 2 v ≡ v % 2 ^ 16
cut2 v = omega arith

cut4 : (v : ℕ) → cut 4 v ≡ v % 2 ^ 32
cut4 v = omega arith

cut8 : (v : ℕ) → cut 8 v ≡ v % 2 ^ 64
cut8 v = omega arith

dirty_byte : (b : Bool) → not (cut 1 (bool_byte b) == 0) ≡ b
dirty_byte true = refl
dirty_byte false = refl

pub header-write_header : (h : PageHeader) (m : Memory) → header (write_header h m) ≡ fit_header h
unfolding header write_header store load poke
header-write_header h m = λ i. record {
  page_id = (cut2 h.page_id) i;
  slot_id = (cut2 h.slot_id) i;
  free_start = (cut2 h.free_start) i;
  free_end = (cut2 h.free_end) i;
  slot_count = (cut2 h.slot_count) i;
  page_type = (cut1 h.page_type) i;
  flags = (cut1 h.flags) i;
  checksum = (cut4 h.checksum) i;
  deleted_tuple_count = (cut2 h.deleted_tuple_count) i;
  fragmented_bytes = (cut8 h.fragmented_bytes) i;
  is_dirty = (dirty_byte h.is_dirty) i;
}

-- The bytes of the header decide it.
pub slot_count_congr :
    (m n : Memory)
    → ((x : ℕ) → 8 ≤ x → x < 10 → byte_at m x ≡ byte_at n x)
    → (header m).slot_count ≡ (header n).slot_count
unfolding header
slot_count_congr m n h = load_congr_byte 2 8 m n h

pub header_congr : (m n : Memory) → ((x : ℕ) → x < 40 → m x ≡ n x) → header m ≡ header n
unfolding header
header_congr m n h = λ i. record {
  page_id = (field 2 0 (omega arith)) i;
  slot_id = (field 2 2 (omega arith)) i;
  free_start = (field 2 4 (omega arith)) i;
  free_end = (field 2 6 (omega arith)) i;
  slot_count = (field 2 8 (omega arith)) i;
  page_type = (field 1 10 (omega arith)) i;
  flags = (field 1 11 (omega arith)) i;
  checksum = (field 4 12 (omega arith)) i;
  deleted_tuple_count = (field 2 16 (omega arith)) i;
  fragmented_bytes = (field 8 24 (omega arith)) i;
  is_dirty = not ((field 1 32 (omega arith)) i == 0);
}
  where
    field : (w o : ℕ) → o + w ≤ 40 → load w o m ≡ load w o n
    field w o fits = load_congr w o m n (λ x p q. h x (omega arith))

pub read_slot_congr :
    (m n : Memory) (o : ℕ)
    → ((x : ℕ) → o ≤ x → x < o + 8 → m x ≡ n x)
    → read_slot m o ≡ read_slot n o
unfolding read_slot
read_slot_congr m n o h = λ i. record {
  offset = (load_congr 2 o m n (λ x p q. h x (omega arith) (omega arith))) i;
  length = (field 2 2 (omega arith)) i;
  flags = (field 1 4 (omega arith)) i;
  next_ptr0 = (field 1 5 (omega arith)) i;
  next_ptr1 = (field 1 6 (omega arith)) i;
  next_ptr2 = (field 1 7 (omega arith)) i;
}
  where
    field : (w d : ℕ) → d + w ≤ 8 → load w (o + d) m ≡ load w (o + d) n
    field w d fits = load_congr w (o + d) m n (λ x p q. h x (omega arith) (omega arith))

-- Nothing above the header changes when the header is written.
pub write_header_above : (h : PageHeader) (m : Memory) (x : ℕ) → 40 ≤ x → write_header h m x ≡ m x
unfolding write_header
write_header_above h m x above =
    store_apart 2 0 _ _ x (omega arith)
    ∙ store_apart 2 2 _ _ x (omega arith)
    ∙ store_apart 2 4 _ _ x (omega arith)
    ∙ store_apart 2 6 _ _ x (omega arith)
    ∙ store_apart 2 8 _ _ x (omega arith)
    ∙ store_apart 1 10 _ _ x (omega arith)
    ∙ store_apart 1 11 _ _ x (omega arith)
    ∙ store_apart 4 12 _ _ x (omega arith)
    ∙ store_apart 2 16 _ _ x (omega arith)
    ∙ store_apart 8 24 _ _ x (omega arith)
    ∙ store_apart 1 32 _ _ x (omega arith)

store_slot_apart :
    (o : ℕ) (e : SlotEntry) (m : Memory) (x : ℕ) → (x < o) ⊎ (o + 8 ≤ x) → store_slot o e m x ≡ m x
unfolding store_slot
store_slot_apart o e m x h =
    store_apart 2 o _ _ x (omega arith)
    ∙ store_apart 2 (o + 2) _ _ x (omega arith)
    ∙ store_apart 1 (o + 4) _ _ x (omega arith)
    ∙ store_apart 1 (o + 5) _ _ x (omega arith)
    ∙ store_apart 1 (o + 6) _ _ x (omega arith)
    ∙ store_apart 1 (o + 7) _ _ x (omega arith)

read_slot-store_slot :
    (o : ℕ) (e : SlotEntry) (m : Memory) → read_slot (store_slot o e m) o ≡ fit_slot e
unfolding read_slot store_slot
read_slot-store_slot o e m = λ i. record {
  offset = offset_back i;
  length = length_back i;
  flags = flags_back i;
  next_ptr0 = next_ptr0_back i;
  next_ptr1 = next_ptr1_back i;
  next_ptr2 = next_ptr2_back i;
}
  where
    pass :
        (w d k b v : ℕ) (n : Memory)
        → b + k ≤ d
        → load w (o + d) (store k (o + b) v n) ≡ load w (o + d) n
    pass w d k b v n fits = load-store-Apart w (o + d) k (o + b) v n (omega arith)

    pass_first :
        (w d v : ℕ) (n : Memory) → 2 ≤ d → load w (o + d) (store 2 o v n) ≡ load w (o + d) n
    pass_first w d v n fits = load-store-Apart w (o + d) 2 o v n (omega arith)

    offset_back : load 2 o (store_slot o e m) ≡ e.offset % 2 ^ 16
    offset_back = load-store_self 2 o _ _ ∙ cut2 e.offset

    length_back : load 2 (o + 2) (store_slot o e m) ≡ e.length % 2 ^ 16
    length_back = pass_first 2 2 _ _ (omega arith) ∙ load-store_self 2 (o + 2) _ _ ∙ cut2 e.length

    flags_back : load 1 (o + 4) (store_slot o e m) ≡ e.flags % 2 ^ 8
    flags_back =
        pass_first 1 4 _ _ (omega arith)
        ∙ pass 1 4 2 2 _ _ (omega arith)
        ∙ load-store_self 1 (o + 4) _ _
        ∙ cut1 e.flags

    next_ptr0_back : load 1 (o + 5) (store_slot o e m) ≡ e.next_ptr0 % 2 ^ 8
    next_ptr0_back =
        pass_first 1 5 _ _ (omega arith)
        ∙ pass 1 5 2 2 _ _ (omega arith)
        ∙ pass 1 5 1 4 _ _ (omega arith)
        ∙ load-store_self 1 (o + 5) _ _
        ∙ cut1 e.next_ptr0

    next_ptr1_back : load 1 (o + 6) (store_slot o e m) ≡ e.next_ptr1 % 2 ^ 8
    next_ptr1_back =
        pass_first 1 6 _ _ (omega arith)
        ∙ pass 1 6 2 2 _ _ (omega arith)
        ∙ pass 1 6 1 4 _ _ (omega arith)
        ∙ pass 1 6 1 5 _ _ (omega arith)
        ∙ load-store_self 1 (o + 6) _ _
        ∙ cut1 e.next_ptr1

    next_ptr2_back : load 1 (o + 7) (store_slot o e m) ≡ e.next_ptr2 % 2 ^ 8
    next_ptr2_back =
        pass_first 1 7 _ _ (omega arith)
        ∙ pass 1 7 2 2 _ _ (omega arith)
        ∙ pass 1 7 1 4 _ _ (omega arith)
        ∙ pass 1 7 1 5 _ _ (omega arith)
        ∙ pass 1 7 1 6 _ _ (omega arith)
        ∙ load-store_self 1 (o + 7) _ _
        ∙ cut1 e.next_ptr2

-- A slot id that fits a page has its entry where the directory grows down from the end.
pub slot_offset_lem : (id : ℕ) → id < 1024 → slot_offset id ≡ 8192 - (id + 1) * 8
unfolding slot_offset
slot_offset_lem id h = omega arith

-- The entry of a slot below 1024 lies inside the page.
pub slot_inside : (i : ℕ) → i < 1024 → slot_offset i + slot_entry_size ≤ page_size
slot_inside i p = omega (arith, slot_offset_lem i p)

pub header-write_slot :
    (id : ℕ) (e : SlotEntry) (m : Memory) → id < 1019 → header (write_slot id e m) ≡ header m
unfolding write_slot
header-write_slot id e m h =
    header_congr _ m
      (λ x p. store_slot_apart (slot_offset id) e m x (omega (arith, slot_offset_lem id)))

pub slot-write_header :
    (id : ℕ) (h : PageHeader) (m : Memory) → id < 1019 → slot (write_header h m) id ≡ slot m id
unfolding slot
slot-write_header id h m fits =
    read_slot_congr _ m (slot_offset id)
      (λ x p q. write_header_above h m x (omega (arith, slot_offset_lem id)))

pub slot-write_slot_self :
    (id : ℕ) (e : SlotEntry) (m : Memory) → slot (write_slot id e m) id ≡ fit_slot e
unfolding slot write_slot
slot-write_slot_self id e m = read_slot-store_slot (slot_offset id) e m

pub slot-write_slot_ne :
    (id k : ℕ) (e : SlotEntry) (m : Memory)
    → id < 1024
    → k < 1024
    → id ≢ k
    → slot (write_slot k e m) id ≡ slot m id
unfolding slot write_slot
slot-write_slot_ne id k e m hi hk ne = read_slot_congr _ m (slot_offset id) (λ x p q.
    store_slot_apart (slot_offset k) e m x (omega (arith, slot_offset_lem id, slot_offset_lem k)))

-- Data below the entry is left alone.
pub write_slot_below :
    (id : ℕ) (e : SlotEntry) (m : Memory) (x : ℕ)
    → id < 1024
    → x < 8192 - (id + 1) * 8
    → write_slot id e m x ≡ m x
unfolding write_slot
write_slot_below id e m x fits below =
    store_slot_apart (slot_offset id) e m x (omega (arith, slot_offset_lem id))

pub header-memcpy :
    (m : Memory) (off : ℕ) (src : Memory) (from n : ℕ)
    → 40 ≤ off
    → header (memcpy m off src from n) ≡ header m
header-memcpy m off src from n h =
    header_congr _ m (λ x p. memcpy_apart m off src from n x (omega arith))

pub slot-memcpy :
    (id : ℕ) (m : Memory) (off : ℕ) (src : Memory) (from n : ℕ)
    → id < 1024
    → off + n ≤ 8192 - (id + 1) * 8
    → slot (memcpy m off src from n) id ≡ slot m id
unfolding slot
slot-memcpy id m off src from n fits below =
    read_slot_congr _ m (slot_offset id)
      (λ x p q. memcpy_apart m off src from n x (omega (arith, slot_offset_lem id)))
