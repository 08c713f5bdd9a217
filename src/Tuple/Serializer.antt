-- ===== src/Tuple/Serializer.antt =====
-- include/tuple/tuple_serializer.h, src/tuple/tuple_serializer.cpp: what `SerializeFixedLength` and
-- `SerializeVariableLength`, and what `DeserializeFixedLength` and `DeserializeVariableLength`, have
-- in common: the values of fixed width, the bytes of strings, and the loops over the columns. An
-- exception and a failed assertion are results; what is in the buffer then is not kept.
use storage_prototype.Common.{
  ℕ, zero, suc, ◌+◌, ◌%◌, ◌^◌, ◌≡◌, ap, Bool, true, false, not, ◌==◌, if◌then◌else◌, Option, none,
  some, List, [], ◌∷◌,
}
use storage_prototype.Memory.{Memory, byte_at, poke, store, load}
use storage_prototype.Schema.{
  DataType, boolean, tinyint, smallint, integer, bigint, float, double, char, varchar, text, blob,
  ColumnDefinition, align_offset, is_fixed_length,
}
use storage_prototype.Tuple.Field.{
  FieldValue, FieldError, Read, returns, throws, field_null, field_boolean, field_tinyint,
  field_smallint, field_integer, field_bigint, field_float, field_double, get_boolean, get_tinyint,
  get_smallint, get_integer, get_bigint, get_float, get_double,
}
use storage_prototype.Tuple.Header.{TupleHeader, set_field_null, is_field_null}
pub mod Size
pub mod Fixed
pub mod Variable
pub mod Scalars
pub mod Bytes
pub mod Columns

pub data SerializeError : Type 0 where
  not_finalized : SerializeError
  variable_schema : SerializeError
  count_mismatch : SerializeError
  header_too_big : SerializeError
  char_too_long : SerializeError
  unexpected_type : SerializeError
  data_too_big : SerializeError
  bad_value : FieldError → SerializeError
  value_missing : SerializeError
  assertion_failed : SerializeError

pub data Result {ℓ} (A : Type ℓ) : Type ℓ where
  ok : A → Result A
  err : SerializeError → Result A

-- What follows a call that did not throw.
infixl 5 ◌>>=◌
abbrev pub ◌>>=◌ {ℓ ℓ'} :
    {Before : Type ℓ} {After : Type ℓ'} → Result Before → (Before → Result After) → Result After
ok result >>= next = next result
err thrown >>= next = err thrown

infixl 5 ◌>>◌
abbrev pub ◌>>◌ {ℓ} : {After : Type ℓ} → Result (Unit {0}) → Result After → Result After
check >> next = check >>= (λ passed. next)

-- `if (!test) throw e`
abbrev pub require : Bool → SerializeError → Result (Unit {0})
require true e = ok tt
require false e = err e

pub require-true {ℓ} :
    {A : Type ℓ} {b : Bool} (e : SerializeError) (rest : Result A)
    → b ≡ true
    → (require b e >> rest) ≡ rest
require-true e rest h = ap (λ (b : Bool). require b e >> rest) h

abbrev pub asserted {ℓ} : {A : Type ℓ} → Option A → Result A
asserted (some a) = ok a
asserted none = err assertion_failed

abbrev pub value_of : {A : Type 0} → Read A → Result A
value_of (returns a) = ok a
value_of (throws e) = err (bad_value e)

-- What a conversion to `uint16_t` or to `size_t` keeps.
abbrev pub uint16 : ℕ → ℕ
uint16 n = n % 2 ^ 16

abbrev pub size64 : ℕ → ℕ
size64 n = n % 2 ^ 64

abbrev pub bool_byte : Bool → ℕ
bool_byte b = if b then 1 else 0

-- The cases of the switches for numbers and Booleans: `memcpy` of what the getter returns to offset
-- `o`. The other types are an error.
pub write_scalar : DataType → FieldValue → ℕ → Memory → Result Memory
write_scalar boolean v o m = do val ← value_of (get_boolean v); ok (store 1 o (bool_byte val) m)
write_scalar tinyint v o m = do val ← value_of (get_tinyint v); ok (store 1 o val m)
write_scalar smallint v o m = do val ← value_of (get_smallint v); ok (store 2 o val m)
write_scalar integer v o m = do val ← value_of (get_integer v); ok (store 4 o val m)
write_scalar bigint v o m = do val ← value_of (get_bigint v); ok (store 8 o val m)
write_scalar float v o m = do val ← value_of (get_float v); ok (store 4 o val m)
write_scalar double v o m = do val ← value_of (get_double v); ok (store 8 o val m)
write_scalar char v o m = err unexpected_type
write_scalar varchar v o m = err unexpected_type
write_scalar text v o m = err unexpected_type
write_scalar blob v o m = err unexpected_type

-- The same cases of the switches that read. A `bool` is true for every byte but 0.
pub read_scalar : DataType → ℕ → Memory → Result FieldValue
read_scalar boolean o m = ok (field_boolean (not (load 1 o m == 0)))
read_scalar tinyint o m = ok (field_tinyint (load 1 o m))
read_scalar smallint o m = ok (field_smallint (load 2 o m))
read_scalar integer o m = ok (field_integer (load 4 o m))
read_scalar bigint o m = ok (field_bigint (load 8 o m))
read_scalar float o m = ok (field_float (load 4 o m))
read_scalar double o m = ok (field_double (load 8 o m))
read_scalar char o m = err unexpected_type
read_scalar varchar o m = err unexpected_type
read_scalar text o m = err unexpected_type
read_scalar blob o m = err unexpected_type

-- `memcpy` of the first `n` bytes of a string or of a vector to offset `o`.
pub store_bytes : ℕ → ℕ → List ℕ → Memory → Memory
store_bytes zero o s m = m
store_bytes (suc n) o [] m = m
store_bytes (suc n) o (c ∷ s) m = poke o (c % 256) (store_bytes n (o + 1) s m)

-- The `n` bytes from offset `o` on.
pub load_bytes : ℕ → ℕ → Memory → List ℕ
load_bytes zero o m = []
load_bytes (suc n) o m = byte_at m o ∷ load_bytes n (o + 1) m

-- What a loop over the columns has written, and where it stands.
pub record Progress : Type 0 where
  pub buffer : Memory
  pub header : TupleHeader
  pub current_offset : ℕ

-- A column of fixed length, where `write` is the switch over its type: `o` is the aligned offset.
module _ (write : ColumnDefinition → FieldValue → ℕ → Memory → Result Memory) where
  pub write_or_null :
      ℕ → ColumnDefinition → FieldValue → ℕ → Progress → Result (Memory × TupleHeader)
  write_or_null i col v o p =
      if v.is_null
      then (do header ← asserted (set_field_null p.header (uint16 i) true); ok (p.buffer, header))
      else (do buffer ← write col v o p.buffer; ok (buffer, p.header))

  pub write_column : ℕ → ColumnDefinition → FieldValue → Progress → Result Progress
  write_column i col v p = do
    let o = align_offset p.current_offset col.data_type
    (buffer, header) ← write_or_null i col v o p
    ok (record { buffer = buffer; header = header; current_offset = size64 (o + col.fixed_size) })

-- The loop over the columns and their values, `i` the index of the first of them.
module _ {S : Type 0} (step : ℕ → ColumnDefinition → FieldValue → S → Result S) where
  pub for_columns : ℕ → List ColumnDefinition → List FieldValue → S → Result S
  for_columns i [] values p = ok p
  for_columns i (col ∷ cols) [] p = ok p
  for_columns i (col ∷ cols) (v ∷ values) p = do
    p' ← step i col v p
    for_columns (i + 1) cols values p'

-- A column of fixed length read back, where `read` is the switch over its type.
module _ (read : ColumnDefinition → ℕ → Memory → Result FieldValue) where
  pub read_or_null : ℕ → ColumnDefinition → TupleHeader → Memory → ℕ → Result FieldValue
  read_or_null i col header m o = do
    null ← asserted (is_field_null header (uint16 i))
    if null then ok (field_null col.data_type) else read col o m
