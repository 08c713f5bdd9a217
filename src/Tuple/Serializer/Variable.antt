-- ===== src/Tuple/Serializer/Variable.antt =====
-- `SerializeVariableLength` and `DeserializeVariableLength` of src/tuple/tuple_serializer.cpp: the
-- columns of fixed length first, then, from a multiple of eight on, a length of two bytes and the
-- data of each value of variable length, whose offset the header holds.
use storage_prototype.Common.{
  ℕ, ◌+◌, ◌*◌, ◌/◌, true, leb, ◌==◌, if◌then◌else◌, List, [], ◌∷◌, ◌++◌, length,
}
use storage_prototype.Memory.{Memory, store, load, memset}
use storage_prototype.Schema.{
  DataType, char, varchar, text, blob, ColumnDefinition, Schema, align_offset, is_fixed_length,
  get_column_count,
}
use storage_prototype.Tuple.Field.{
  FieldValue, field_null, field_char, field_varchar, field_text, field_blob, get_string, get_blob,
}
use storage_prototype.Tuple.Header.{
  TupleHeader, tuple_header, set_field_null, is_field_null, set_variable_length_offset,
  get_variable_length_offset, get_header_size, serialize_to, deserialize_from,
}
use storage_prototype.Tuple.Serializer.{
  Result, ok, ◌>>=◌, ◌>>◌, require, asserted, value_of, uint16, size64, not_finalized,
  count_mismatch, header_too_big, data_too_big, write_scalar, read_scalar, store_bytes, load_bytes,
  Progress, write_column, for_columns, read_or_null,
}
use storage_prototype.Tuple.Serializer.Size.{count_variable}
pub mod Data
pub mod First
pub mod Moved
pub mod Second
pub mod SecondLoop
pub mod Reading
pub mod RoundTrip

-- The switches for a column of fixed length, in which CHAR has no case.
pub write_number : ColumnDefinition → FieldValue → ℕ → Memory → Result Memory
write_number col v o m = write_scalar col.data_type v o m

pub read_number : ColumnDefinition → ℕ → Memory → Result FieldValue
read_number col o m = read_scalar col.data_type o m

-- The body of the first loop.
pub write_if_fixed : ℕ → ColumnDefinition → FieldValue → Progress → Result Progress
write_if_fixed i col v p = if is_fixed_length col then write_column write_number i col v p else ok p

-- The length and the bytes, unless they go past the buffer. Only what `uint16_t` keeps of the length
-- is written.
pub write_data : ℕ → List ℕ → Progress → Result Progress
write_data buffer_size bytes p = do
  let n = uint16 (length bytes)
  let o = p.current_offset
  require (leb (size64 (o + 2 + n)) buffer_size) data_too_big
  ok (record p {
    buffer = store_bytes n (size64 (o + 2)) bytes (store 2 o n p.buffer);
    current_offset = size64 (o + 2 + n);
  })

-- The value of a column of variable length, by the column's type.
pub write_variable : DataType → ℕ → FieldValue → Progress → Result Progress
write_variable char buffer_size v p = do str ← value_of (get_string v); write_data buffer_size str p
write_variable varchar buffer_size v p = do
  str ← value_of (get_string v)
  write_data buffer_size str p
write_variable text buffer_size v p = do str ← value_of (get_string v); write_data buffer_size str p
write_variable blob buffer_size v p = do
  bytes ← value_of (get_blob v)
  write_data buffer_size bytes p
write_variable type buffer_size v p = ok p

-- A column of variable length with index `i`, the one with index `k` of these.
pub write_or_mark : ℕ → ℕ → ℕ → ColumnDefinition → FieldValue → Progress → Result Progress
write_or_mark buffer_size i k col v p =
    if v.is_null
    then (do
      marked ← asserted (set_field_null p.header (uint16 i) true)
      header ← asserted (set_variable_length_offset marked k 0xFFFF)
      ok (record p { header = header }))
    else (do
      header ← asserted (set_variable_length_offset p.header k (uint16 p.current_offset))
      write_variable col.data_type buffer_size v (record p { header = header }))

-- The body of the second loop.
pub write_if_variable : ℕ → ℕ → ColumnDefinition → FieldValue → Progress × ℕ → Result (Progress × ℕ)
write_if_variable buffer_size i col v (p, k) =
    if is_fixed_length col
    then ok (p, k)
    else (do p' ← write_or_mark buffer_size i k col v p; ok (p', uint16 (k + 1)))

abbrev pub aligned : Progress → Progress
aligned p = record p { current_offset = size64 (p.current_offset + 7) / 8 * 8 }

-- The two loops, from the new header on.
pub write_both : Schema → List FieldValue → Memory → ℕ → TupleHeader → Result (Memory × ℕ)
write_both schema values buffer buffer_size header = do
  require (leb (get_header_size header) buffer_size) header_too_big
  p ← for_columns write_if_fixed 0 schema.columns values (record {
    buffer = memset buffer 0 0 buffer_size;
    header = header;
    current_offset = get_header_size header;
  })
  (q, k) ← for_columns (write_if_variable buffer_size) 0 schema.columns values (aligned p, 0)
  ok (serialize_to q.header q.buffer, q.current_offset)

-- The buffer that the call leaves, and the size that it returns.
pub serialize_variable_length : Schema → List FieldValue → Memory → ℕ → Result (Memory × ℕ)
serialize_variable_length schema values buffer buffer_size = do
  require schema.is_finalized not_finalized
  require (length values == get_column_count schema) count_mismatch
  header ←
      asserted (tuple_header (uint16 (get_column_count schema)) (count_variable schema.columns 0))
  write_both schema values buffer buffer_size header

-- The value at offset `o`, of the type of a column of variable length: one value, and none for
-- another type.
pub read_data : DataType → ℕ → Memory → List FieldValue
read_data char o m = field_char (load_bytes (load 2 o m) (o + 2) m) ∷ []
read_data varchar o m = field_varchar (load_bytes (load 2 o m) (o + 2) m) ∷ []
read_data text o m = field_text (load_bytes (load 2 o m) (o + 2) m) ∷ []
read_data blob o m = field_blob (load_bytes (load 2 o m) (o + 2) m) ∷ []
read_data type o m = []

pub read_variable : ℕ → ℕ → ColumnDefinition → TupleHeader → Memory → Result (List FieldValue)
read_variable i k col header m = do
  null ← asserted (is_field_null header (uint16 i))
  if null then ok (field_null col.data_type ∷ []) else (do
    o ← asserted (get_variable_length_offset header k)
    if o == 0xFFFF then ok (field_null col.data_type ∷ []) else ok (read_data col.data_type o m))

-- What an iteration of the loop of `DeserializeVariableLength` appends to the result.
pub read_field : ℕ → ℕ → ColumnDefinition → TupleHeader → Memory → ℕ → Result (List FieldValue)
read_field i k col header m current_offset =
    if is_fixed_length col
    then (do
      v ← read_or_null read_number i col header m (align_offset current_offset col.data_type)
      ok (v ∷ []))
    else read_variable i k col header m

-- The loop from the column with index `i` on, `k` columns of variable length before it.
pub read_fields :
    ℕ → List ColumnDefinition → TupleHeader → Memory → ℕ → ℕ → Result (List FieldValue)
read_fields i [] header m current_offset k = ok []
read_fields i (col ∷ cols) header m current_offset k = do
  let fixed = is_fixed_length col
  let o = align_offset current_offset col.data_type
  us ← read_field i k col header m current_offset
  vs ←
      read_fields (i + 1) cols header m
        (if fixed then size64 (o + col.fixed_size) else current_offset)
        (if fixed then k else uint16 (k + 1))
  ok (us ++ vs)

-- `DeserializeVariableLength` from the header that is read on.
pub read_both : Schema → Memory → ℕ → TupleHeader → Result (List FieldValue)
read_both schema buffer buffer_size header = do
  require (leb (get_header_size header) buffer_size) header_too_big
  read_fields 0 schema.columns header buffer (get_header_size header) 0

pub deserialize_variable_length : Schema → Memory → ℕ → Result (List FieldValue)
deserialize_variable_length schema buffer buffer_size = do
  require schema.is_finalized not_finalized
  header ←
      asserted (
        deserialize_from buffer (uint16 (get_column_count schema))
          (count_variable schema.columns 0))
  read_both schema buffer buffer_size header
