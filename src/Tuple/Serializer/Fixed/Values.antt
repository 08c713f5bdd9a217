-- ===== src/Tuple/Serializer/Fixed/Values.antt =====
-- What a column of a schema of fixed length can hold.
use storage_prototype.Common.{
  ℕ, zero, suc, ◌+◌, ◌≤◌, ◌<◌, ◌≡◌, ◌⊎◌, ◌∙◌, inl, inr, refl, arith, ap, sym, subst, Bool, true,
  false, le→leb, leb, ◌==◌, ◌%◌, ne→==, choose_true, choose_false, List, [], ◌∷◌, length,
}
use storage_prototype.Memory.{Memory, byte_at}
use storage_prototype.Schema.{
  DataType, boolean, tinyint, smallint, integer, bigint, float, double, char, varchar, text, blob,
  ColumnDefinition, Name,
}
use storage_prototype.Tuple.Field.{FieldValue, Read, field_null, field_char}
use storage_prototype.Tuple.Field.Reads.{read_back, made_not_null}
use storage_prototype.Tuple.Serializer.{
  ok, ◌>>=◌, ◌>>◌, require, value_of, char_too_long, store_bytes, load_bytes,
}
use storage_prototype.Tuple.Serializer.Scalars.{
  Agree, Wrote, HoldsScalar, write_scalar-Wrote, HoldsScalar-is_null, made_from,
}
use storage_prototype.Tuple.Serializer.Bytes.{store_bytes_apart, store_bytes_cons}
use storage_prototype.Tuple.Serializer.Columns.{Storable}
use storage_prototype.Tuple.Serializer.Fixed.{
  until_null, write_char, write_by, read_by, write_fixed, read_fixed,
}

-- Bytes, none of them 0.
abbrev pub Text : List ℕ → Type 0
Text [] = Unit
Text (c ∷ s) = (0 < c) × (c < 256) × Text s

-- The values of a column: a null, a number or a Boolean of its type, or a string without null bytes
-- that is not longer than the column.
unfoldable pub HoldsValue : DataType → ℕ → FieldValue → Type 0
HoldsValue char n v = (s : Name) × (v ≡ field_char s) × (length s ≤ n) × Text s
HoldsValue t n v = HoldsScalar t n v

abbrev pub Holds : ColumnDefinition → FieldValue → Type 0
Holds col v = (v ≡ field_null col.data_type) ⊎ HoldsValue col.data_type col.fixed_size v

-- A string in a field whose other bytes are 0 is read up to its end.
until_null-cons : (c : ℕ) (s : List ℕ) → 0 < c → until_null (c ∷ s) ≡ c ∷ until_null s
unfolding until_null
until_null-cons c s h = choose_false _ _ (ne→== c 0 (omega arith))

until_null-load_bytes :
    (s : List ℕ) (n o : ℕ) (m m' : Memory)
    → Text s
    → length s ≤ n
    → Agree o (o + n) m (λ x. 0)
    → Agree o (o + n) m' (store_bytes (length s) o s m)
    → until_null (load_bytes n o m') ≡ s
unfolding until_null load_bytes store_bytes
until_null-load_bytes [] zero o m m' w h clear same = refl
until_null-load_bytes [] (suc n) o m m' w h clear same = choose_true _ _ (
    ap (λ (b : ℕ). b % 256 == 0)
      (same o (omega arith) (omega arith) ∙ clear o (omega arith) (omega arith)))
until_null-load_bytes (c ∷ s) zero o m m' w h clear same = absurd (omega arith)
until_null-load_bytes (c ∷ s) (suc n) o m m' (w0, w1, w) h clear same =
    ap (λ (d : ℕ). until_null (d ∷ load_bytes n (o + 1) m')) first
    ∙ until_null-cons c (load_bytes n (o + 1) m') w0
    ∙ ap (λ (t : List ℕ). c ∷ t)
        (until_null-load_bytes s n (o + 1) m m' w (omega arith)
          (λ x a b. clear x (omega arith) (omega arith))
          (λ x a b.
            same x (omega arith) (omega arith)
            ∙ (store_bytes_cons (length s) o c s m).1 x (omega arith)))
  where
    first : byte_at m' o ≡ c
    first =
        ap (λ (b : ℕ). b % 256)
          (same o (omega arith) (omega arith) ∙ (store_bytes_cons (length s) o c s m).0)
        ∙ omega arith

char-Wrote :
    (o : ℕ) (m : Memory) (col : ColumnDefinition) (s : Name)
    → length s ≤ col.fixed_size
    → Text s
    → Agree o (o + col.fixed_size) m (λ x. 0)
    → Wrote
        (field_char s)
        o
        col.fixed_size
        m
        (write_char col (field_char s) o m)
        (read_by char col o)
unfolding write_char read_by
char-Wrote o m col s h w clear = record {
  after = store_bytes (length s) o s m;
  returned =
      ap
        (λ (r : Read Name). value_of r >>= (λ str.
          require (leb (length str) col.fixed_size) char_too_long
          >> ok (store_bytes (length str) o str m)))
        (read_back true 0 s []).7
      ∙ ap (λ (b : Bool). require b char_too_long >> ok (store_bytes (length s) o s m))
          (le→leb _ _ h);
  outside = λ x a. store_bytes_apart (length s) o s m x (omega arith);
  reads = λ m' same.
      ap (λ (t : Name). ok (field_char t))
        (until_null-load_bytes s col.fixed_size o m m' w h clear same);
}

HoldsValue-Wrote :
    (t : DataType) (o : ℕ) (m : Memory) (col : ColumnDefinition) (v : FieldValue)
    → HoldsValue t col.fixed_size v
    → Agree o (o + col.fixed_size) m (λ x. 0)
    → Wrote v o col.fixed_size m (write_by t col v o m) (read_by t col o)
unfolding HoldsValue write_by read_by
HoldsValue-Wrote char o m col v (s, e, h, w) clear =
    subst
      (λ (u : FieldValue). Wrote u o col.fixed_size m (write_char col u o m) (read_by char col o))
      (sym e) (char-Wrote o m col s h w clear)
HoldsValue-Wrote boolean o m col v h clear = write_scalar-Wrote col.fixed_size o m boolean v h
HoldsValue-Wrote tinyint o m col v h clear = write_scalar-Wrote col.fixed_size o m tinyint v h
HoldsValue-Wrote smallint o m col v h clear = write_scalar-Wrote col.fixed_size o m smallint v h
HoldsValue-Wrote integer o m col v h clear = write_scalar-Wrote col.fixed_size o m integer v h
HoldsValue-Wrote bigint o m col v h clear = write_scalar-Wrote col.fixed_size o m bigint v h
HoldsValue-Wrote float o m col v h clear = write_scalar-Wrote col.fixed_size o m float v h
HoldsValue-Wrote double o m col v h clear = write_scalar-Wrote col.fixed_size o m double v h
HoldsValue-Wrote varchar o m col v h clear = write_scalar-Wrote col.fixed_size o m varchar v h
HoldsValue-Wrote text o m col v h clear = write_scalar-Wrote col.fixed_size o m text v h
HoldsValue-Wrote blob o m col v h clear = write_scalar-Wrote col.fixed_size o m blob v h

HoldsValue-is_null : (t : DataType) (n : ℕ) (v : FieldValue) → HoldsValue t n v → v.is_null ≡ false
unfolding HoldsValue
HoldsValue-is_null char n v (s, e, h, w) = made_from v e (made_not_null true 0 s []).7
HoldsValue-is_null boolean n v h = HoldsScalar-is_null boolean n v h
HoldsValue-is_null tinyint n v h = HoldsScalar-is_null tinyint n v h
HoldsValue-is_null smallint n v h = HoldsScalar-is_null smallint n v h
HoldsValue-is_null integer n v h = HoldsScalar-is_null integer n v h
HoldsValue-is_null bigint n v h = HoldsScalar-is_null bigint n v h
HoldsValue-is_null float n v h = HoldsScalar-is_null float n v h
HoldsValue-is_null double n v h = HoldsScalar-is_null double n v h
HoldsValue-is_null varchar n v h = HoldsScalar-is_null varchar n v h
HoldsValue-is_null text n v h = HoldsScalar-is_null text n v h
HoldsValue-is_null blob n v h = HoldsScalar-is_null blob n v h

-- What a column can hold is what the switches can write and read.
pub Holds-Storable :
    (col : ColumnDefinition) (v : FieldValue) → Holds col v → Storable write_fixed read_fixed col v
unfolding write_fixed read_fixed
Holds-Storable col v (inl e) = inl e
Holds-Storable col v (inr h) = inr (
  HoldsValue-is_null col.data_type col.fixed_size v h,
  λ o m clear. HoldsValue-Wrote col.data_type o m col v h clear,
)
