-- ===== src/Tuple/Serializer/Fixed.antt =====
-- `SerializeFixedLength` and `DeserializeFixedLength` of src/tuple/tuple_serializer.cpp.
use storage_prototype.Common.{
  ℕ, zero, suc, ◌+◌, Bool, not, ltb, leb, ◌==◌, if◌then◌else◌, List, [], ◌∷◌, length,
}
use storage_prototype.Memory.{Memory, memset}
use storage_prototype.Schema.{
  DataType, char, ColumnDefinition, Schema, Name, align_offset, get_column_count,
}
use storage_prototype.Tuple.Field.{FieldValue, field_char, get_string}
use storage_prototype.Tuple.Header.{
  TupleHeader, tuple_header, get_header_size, serialize_to, deserialize_from,
}
use storage_prototype.Tuple.Serializer.{
  Result, ok, err, ◌>>=◌, ◌>>◌, require, asserted, value_of, uint16, size64, not_finalized,
  variable_schema, count_mismatch, header_too_big, char_too_long, write_scalar, read_scalar,
  store_bytes, load_bytes, Progress, write_column, for_columns, read_or_null,
}
pub mod Values
pub mod Loops
pub mod RoundTrip

-- The string up to the first null byte.
pub until_null : List ℕ → List ℕ
until_null [] = []
until_null (c ∷ s) = if c == 0 then [] else c ∷ until_null s

pub write_char : ColumnDefinition → FieldValue → ℕ → Memory → Result Memory
write_char col v o m = do
  str ← value_of (get_string v)
  require (leb (length str) col.fixed_size) char_too_long
  ok (store_bytes (length str) o str m)

-- The switch that writes, and the one that reads.
pub write_by : DataType → ColumnDefinition → FieldValue → ℕ → Memory → Result Memory
write_by char col v o m = write_char col v o m
write_by type col v o m = write_scalar type v o m

pub read_by : DataType → ColumnDefinition → ℕ → Memory → Result FieldValue
read_by char col o m = ok (field_char (until_null (load_bytes col.fixed_size o m)))
read_by type col o m = read_scalar type o m

pub write_fixed : ColumnDefinition → FieldValue → ℕ → Memory → Result Memory
write_fixed col v o m = write_by col.data_type col v o m

pub read_fixed : ColumnDefinition → ℕ → Memory → Result FieldValue
read_fixed col o m = read_by col.data_type col o m

-- What the loop starts from.
abbrev pub started : Memory → ℕ → TupleHeader → Progress
started buffer buffer_size header = record {
  buffer = memset buffer 0 0 buffer_size;
  header = header;
  current_offset = get_header_size header;
}

-- `SerializeFixedLength` from the new header on.
pub write_with_header : Schema → List FieldValue → Memory → ℕ → TupleHeader → Result (Memory × ℕ)
write_with_header schema values buffer buffer_size header = do
  require (leb (get_header_size header) buffer_size) header_too_big
  p ←
      for_columns (write_column write_fixed) 0 schema.columns values
        (started buffer buffer_size header)
  ok (serialize_to p.header p.buffer, p.current_offset)

-- The buffer that the call leaves, and the size that it returns.
pub serialize_fixed_length : Schema → List FieldValue → Memory → ℕ → Result (Memory × ℕ)
serialize_fixed_length schema values buffer buffer_size = do
  require schema.is_finalized not_finalized
  require schema.all_fixed variable_schema
  require (length values == get_column_count schema) count_mismatch
  header ← asserted (tuple_header (uint16 (get_column_count schema)) 0)
  write_with_header schema values buffer buffer_size header

-- The loop of `DeserializeFixedLength` from the column with index `i` on.
pub read_columns : ℕ → List ColumnDefinition → TupleHeader → Memory → ℕ → Result (List FieldValue)
read_columns i [] header m current_offset = ok []
read_columns i (col ∷ cols) header m current_offset = do
  let o = align_offset current_offset col.data_type
  v ← read_or_null read_fixed i col header m o
  vs ← read_columns (i + 1) cols header m (size64 (o + col.fixed_size))
  ok (v ∷ vs)

-- `DeserializeFixedLength` from the header that is read on.
pub read_with_header : Schema → Memory → ℕ → TupleHeader → Result (List FieldValue)
read_with_header schema buffer buffer_size header = do
  require (leb (get_header_size header) buffer_size) header_too_big
  read_columns 0 schema.columns header buffer (get_header_size header)

pub deserialize_fixed_length : Schema → Memory → ℕ → Result (List FieldValue)
deserialize_fixed_length schema buffer buffer_size = do
  require schema.is_finalized not_finalized
  require schema.all_fixed variable_schema
  header ← asserted (deserialize_from buffer (uint16 (get_column_count schema)) 0)
  read_with_header schema buffer buffer_size header
