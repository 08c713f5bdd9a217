-- ===== src/Tuple/Header/Nulls.antt =====
-- The null bitmap and the offsets: what is written is read back, and nothing else changes.
use storage_prototype.Common.{
  ℕ, zero, suc, ◌-◌, ◌*◌, ◌^◌, ◌≤◌, ◌<◌, ◌≡◌, ◌≢◌, ◌∙◌, refl, arith, bit_and, bit_or, ap, Bool,
  true, false, not, ltb, ◌==◌, ==_self, ne→==, if◌then◌else◌, none, some, length, length-replicate,
  lt→ltb, eq-or-ne, inl, inr, ◌⊎◌, subst, choose_true, choose_false, sym, lt-or-le, le→ltb, lt→leb,
  Option, le→leb, replicate,
}
use storage_prototype.Common.Bits.Single.{
  bit, bit-lt, bit-zero, bit-bit_or, bit-bit_and, bit_and_power, bit-power_self, bit-power_ne,
  bit-mask_self, bit-mask_ne, bit_or-lt, bit_and-lt, power-lt, power_positive,
}
use storage_prototype.Tuple.Header.{
  TupleHeader, tuple_header, set_field_null, is_field_null, field_mask,
}

-- What the constructor establishes and the setters keep.
pub record IsHeader (h : TupleHeader) : Type 0 where
  pub few_fields : h.field_count ≤ 64
  pub bitmap_fits : h.null_bitmap < 2 ^ 64
  pub offsets : length h.var_offsets ≡ h.var_field_count

bit_test : (n i : ℕ) → not (bit_and n (2 ^ i) == 0) ≡ (bit n i == 1)
bit_test n i =
    ap (λ (m : ℕ). not (m == 0)) (bit_and_power n i)
    ∙ product (bit n i) (2 ^ i) (bit-lt n i) (power_positive i)
  where
    product : (b p : ℕ) → b < 2 → 0 < p → not (b * p == 0) ≡ (b == 1)
    product zero p h h' = ground arith
    product (suc zero) p h h' = ground arith
    product (suc (suc b)) p h h' = absurd (omega arith)

-- The bitmap that `SetFieldNull` leaves.
abbrev with_null : ℕ → ℕ → Bool → ℕ
with_null n i true = bit_or n (field_mask i)
with_null n i false = bit_and n (2 ^ 64 - 1 - field_mask i)

abbrev one_if : Bool → ℕ
one_if true = 1
one_if false = 0

with_null_self : (n i : ℕ) (b : Bool) → i < 64 → bit (with_null n i b) i ≡ one_if b
with_null_self n i true h = omega (arith, bit-bit_or n (2 ^ i) i, bit-power_self i, bit-lt n i)
with_null_self n i false h =
    omega (arith, bit-bit_and n (2 ^ 64 - 1 - 2 ^ i) i, bit-mask_self 64 i h)

with_null_ne : (n i j : ℕ) (b : Bool) → i < 64 → j < 64 → i ≢ j → bit (with_null n i b) j ≡ bit n j
with_null_ne n i j true h h' ne = omega (arith, bit-bit_or n (2 ^ i) j, bit-power_ne i j ne)
with_null_ne n i j false h h' ne =
    omega (arith, bit-bit_and n (2 ^ 64 - 1 - 2 ^ i) j, bit-mask_ne 64 i j h h' ne, bit-lt n j)

with_null-lt : (n i : ℕ) (b : Bool) → i < 64 → n < 2 ^ 64 → with_null n i b < 2 ^ 64
with_null-lt n i true h h' = bit_or-lt 64 n (2 ^ i) h' (power-lt i 64 h)
with_null-lt n i false h h' = bit_and-lt 64 n (2 ^ 64 - 1 - 2 ^ i) h' (omega arith)

set_field_null_taken :
    (h : TupleHeader) (i : ℕ) (b : Bool)
    → i < h.field_count
    → set_field_null h i b ≡ some (record h { null_bitmap = with_null h.null_bitmap i b })
unfolding set_field_null
set_field_null_taken h i true p = rw (lt→ltb _ _ p) refl
set_field_null_taken h i false p = rw (lt→ltb _ _ p) refl

is_field_null_lem :
    (h : TupleHeader) (j : ℕ)
    → is_field_null h j ≡ (if ltb j h.field_count then some (bit h.null_bitmap j == 1) else none)
unfolding is_field_null
is_field_null_lem h j =
    ap (λ (t : Bool). if ltb j h.field_count then some t else none) (bit_test h.null_bitmap j)

one_if_test : (b : Bool) → (one_if b == 1) ≡ b
one_if_test true = refl
one_if_test false = refl

-- On a header with its at most 64 fields, `SetFieldNull` succeeds for every field, the field then
-- reads as what was set, every other index reads as before, and the header stays well formed.
pub set_field_null_lem :
    (h : TupleHeader) (i : ℕ) (b : Bool)
    → IsHeader h
    → i < h.field_count
    → (h' : TupleHeader) × (set_field_null h i b ≡ some h')
      × IsHeader h'
      × ((j : ℕ) → is_field_null h' j ≡ (if i == j then some b else is_field_null h j))
set_field_null_lem h i b w p = (
  h',
  set_field_null_taken h i b p,
  record {
    few_fields = w.few_fields;
    bitmap_fits = with_null-lt _ i b below w.bitmap_fits;
    offsets = w.offsets;
  },
  reads,
)
  where
    h' : TupleHeader
    h' = record h { null_bitmap = with_null h.null_bitmap i b }

    below : i < 64
    below = omega (arith, w.few_fields)

    read_self : is_field_null h' i ≡ some b
    read_self =
        is_field_null_lem h' i
        ∙ choose_true _ _ (lt→ltb _ _ p)
        ∙ ap some (ap (λ (n : ℕ). n == 1) (with_null_self h.null_bitmap i b below) ∙ one_if_test b)

    read_ne : (j : ℕ) → i ≢ j → is_field_null h' j ≡ is_field_null h j
    read_ne j ne = elim (lt-or-le j h.field_count) [
      | inl q ↦
          is_field_null_lem h' j
          ∙ ap (λ (n : ℕ). if ltb j h.field_count then some (n == 1) else none)
              (with_null_ne h.null_bitmap i j b below (omega (arith, w.few_fields)) ne)
          ∙ sym (is_field_null_lem h j)
      | inr q ↦
          is_field_null_lem h' j
          ∙ choose_false _ _ (le→ltb _ _ q)
          ∙ sym (choose_false _ _ (le→ltb _ _ q))
          ∙ sym (is_field_null_lem h j)
    ]

    reads : (j : ℕ) → is_field_null h' j ≡ (if i == j then some b else is_field_null h j)
    reads j = elim (eq-or-ne i j) [
      | inl e ↦
          subst (λ (k : ℕ). is_field_null h' k ≡ (if i == k then some b else is_field_null h k)) e
            (read_self ∙ sym (choose_true _ _ (==_self i)))
      | inr ne ↦ read_ne j ne ∙ sym (choose_false _ _ (ne→== _ _ ne))
    ]

-- A new header has the fields asked for, none of them null; above 64 fields it is refused.
pub tuple_header_lem :
    (field_count var_field_count : ℕ)
    → ((field_count ≤ 64)
        × ((h : TupleHeader) × (tuple_header field_count var_field_count ≡ some h)
            × IsHeader h
            × ((j : ℕ) → j < field_count → is_field_null h j ≡ some false)))
      ⊎ ((64 < field_count) × (tuple_header field_count var_field_count ≡ none))
tuple_header_lem field_count var_field_count = elim (lt-or-le 64 field_count) [
  | inl h ↦ inr (h, unfold tuple_header in rw (lt→leb _ _ h) refl)
  | inr h ↦ inl (
    h,
    (
      fresh field_count var_field_count,
      (unfold tuple_header in rw (le→leb _ _ h) refl),
      record {
        few_fields = h;
        bitmap_fits = omega arith;
        offsets = length-replicate var_field_count 0;
      },
      λ j p.
          is_field_null_lem (fresh field_count var_field_count) j
          ∙ choose_true _ _ (lt→ltb _ _ p)
          ∙ ap (λ (n : ℕ). some (n == 1)) (bit-zero j),
    ),
  )
]
  where
    fresh : ℕ → ℕ → TupleHeader
    fresh n k = record {
      null_bitmap = 0;
      field_count = n;
      var_field_count = k;
      var_offsets = replicate k 0;
    }

-- `SetFieldNull` changes the bitmap alone.
pub set_field_null_same :
    (h h' : TupleHeader) (i : ℕ) (b : Bool)
    → i < h.field_count
    → set_field_null h i b ≡ some h'
    → (h'.field_count ≡ h.field_count)
      × (h'.var_field_count ≡ h.var_field_count)
      × (h'.var_offsets ≡ h.var_offsets)
set_field_null_same h h' i b p e = (
  ap (λ (k : TupleHeader). k.field_count) changed,
  ap (λ (k : TupleHeader). k.var_field_count) changed,
  ap (λ (k : TupleHeader). k.var_offsets) changed,
)
  where
    changed : h' ≡ record h { null_bitmap = with_null h.null_bitmap i b }
    changed =
        ap (λ (o : Option TupleHeader). elim o [ some k ↦ k | none ↦ h ])
          (sym e ∙ set_field_null_taken h i b p)

-- What the constructor leaves.
pub tuple_header_fields :
    (n k : ℕ)
    → n ≤ 64
    → (h : TupleHeader) × (tuple_header n k ≡ some h)
      × IsHeader h
      × ((j : ℕ) → j < n → is_field_null h j ≡ some false)
      × (h.field_count ≡ n)
      × (h.var_field_count ≡ k)
      × (h.var_offsets ≡ replicate k 0)
unfolding tuple_header
tuple_header_fields n k few = (
  record { null_bitmap = 0; field_count = n; var_field_count = k; var_offsets = replicate k 0 },
  rw (le→leb _ _ few) refl,
  record { few_fields = few; bitmap_fits = omega arith; offsets = length-replicate k 0 },
  λ j p.
      is_field_null_lem _ j
      ∙ choose_true _ _ (lt→ltb _ _ p)
      ∙ ap (λ (b : ℕ). some (b == 1)) (bit-zero j),
  refl,
  refl,
  refl,
)
