-- ===== src/Tuple/Header/Offsets.antt =====
-- The offsets of the fields of variable length: what is set is read back, and nothing else changes.
use storage_prototype.Common.{
  ℕ, zero, suc, ◌^◌, ◌<◌, ◌≡◌, ◌≢◌, ◌∙◌, refl, arith, ap, ap₂, lt→ltb, choose_true, ltb,
  if◌then◌else◌, Option, some, none, List, [], ◌∷◌, length, get_elem?, set, length-set,
}
use storage_prototype.Tuple.Header.{
  TupleHeader, is_field_null, set_variable_length_offset, get_variable_length_offset,
}
use storage_prototype.Tuple.Header.Nulls.{IsHeader}
use storage_prototype.Tuple.Header.Image.{EachFits}

get_elem?-set_self : (xs : List ℕ) (i v : ℕ) → i < length xs → get_elem? (set xs i v) i ≡ some v
get_elem?-set_self [] i v h = elim h [ ]
get_elem?-set_self (x ∷ xs) zero v h = refl
get_elem?-set_self (x ∷ xs) (suc i) v h = get_elem?-set_self xs i v (omega arith)

get_elem?-set_ne : (xs : List ℕ) (i j v : ℕ) → i ≢ j → get_elem? (set xs i v) j ≡ get_elem? xs j
get_elem?-set_ne [] i j v h = refl
get_elem?-set_ne (x ∷ xs) zero zero v h = absurd (h refl)
get_elem?-set_ne (x ∷ xs) zero (suc j) v h = refl
get_elem?-set_ne (x ∷ xs) (suc i) zero v h = refl
get_elem?-set_ne (x ∷ xs) (suc i) (suc j) v h = get_elem?-set_ne xs i j v (λ e. h (ap suc e))

EachFits-set : (xs : List ℕ) (i v : ℕ) → v < 2 ^ 16 → EachFits xs → EachFits (set xs i v)
EachFits-set [] i v h w = tt
EachFits-set (x ∷ xs) zero v h (w, ws) = (h, ws)
EachFits-set (x ∷ xs) (suc i) v h (w, ws) = (w, EachFits-set xs i v h ws)

-- What setting the offset with index `k` to `v` leaves.
pub record OffsetSet (h : TupleHeader) (k v : ℕ) (h' : TupleHeader) : Type 0 where
  pub returned : set_variable_length_offset h k v ≡ some h'
  pub is_header : IsHeader h'
  pub fits : EachFits h'.var_offsets
  pub same_count : h'.field_count ≡ h.field_count
  pub same_var_count : h'.var_field_count ≡ h.var_field_count
  pub nulls : (j : ℕ) → is_field_null h' j ≡ is_field_null h j
  pub here : get_variable_length_offset h' k ≡ some v
  pub elsewhere : (j : ℕ) → k ≢ j → get_variable_length_offset h' j ≡ get_variable_length_offset h j

-- An offset of a header is set to a number of 16 bits.
pub set_variable_length_offset_lem :
    (h : TupleHeader) (k v : ℕ)
    → IsHeader h
    → EachFits h.var_offsets
    → k < h.var_field_count
    → v < 2 ^ 16
    → (h' : TupleHeader) × OffsetSet h k v h'
unfolding set_variable_length_offset get_variable_length_offset is_field_null
set_variable_length_offset_lem h k v w fits p small = (
  record h { var_offsets = set h.var_offsets k v },
  record {
    returned = choose_true _ _ (lt→ltb _ _ p);
    is_header = record {
      few_fields = w.few_fields;
      bitmap_fits = w.bitmap_fits;
      offsets = length-set h.var_offsets k v ∙ w.offsets;
    };
    fits = EachFits-set h.var_offsets k v small fits;
    same_count = refl;
    same_var_count = refl;
    nulls = λ j. refl;
    here =
        choose_true _ _ (lt→ltb _ _ p)
        ∙ get_elem?-set_self h.var_offsets k v (omega (arith, p, w.offsets));
    elsewhere = λ j ne.
        ap (λ (o : Option ℕ). if ltb j h.var_field_count then o else none)
          (get_elem?-set_ne h.var_offsets k j v ne);
  },
)

-- An offset depends on the count and the offsets alone.
pub get_variable_length_offset_same :
    (h h' : TupleHeader)
    → h'.var_field_count ≡ h.var_field_count
    → h'.var_offsets ≡ h.var_offsets
    → (j : ℕ) → get_variable_length_offset h' j ≡ get_variable_length_offset h j
unfolding get_variable_length_offset
get_variable_length_offset_same h h' e f j =
    ap₂ (λ (n : ℕ) (xs : List ℕ). if ltb j n then get_elem? xs j else none) e f
