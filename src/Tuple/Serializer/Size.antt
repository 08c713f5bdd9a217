-- ===== src/Tuple/Serializer/Size.antt =====
-- `CalculateSerializedSize` of src/tuple/tuple_serializer.cpp, and the count of the columns of variable
-- length, which every routine makes first.
use storage_prototype.Common.{ℕ, ◌+◌, Bool, not, if◌then◌else◌, List, [], ◌∷◌}
use storage_prototype.Schema.{ColumnDefinition, Schema, align_offset, is_fixed_length}
use storage_prototype.Tuple.Field.{FieldValue, get_serialized_size}
use storage_prototype.Tuple.Header.{calculate_header_size}
use storage_prototype.Tuple.Serializer.{
  Result, ok, err, ◌>>=◌, ◌>>◌, require, uint16, size64, not_finalized, value_missing,
}
pub mod OfFixed

-- The count of the columns of variable length, from `n` on.
unfoldable pub count_variable : List ColumnDefinition → ℕ → ℕ
count_variable [] n = n
count_variable (col ∷ cols) n =
    count_variable cols (if is_fixed_length col then n else uint16 (n + 1))

-- What a value adds to the size; a null adds nothing.
pub value_size : FieldValue → ℕ → ℕ
value_size v size = if v.is_null then size else size64 (size + get_serialized_size v)

-- The loop over the columns. The value of a column of fixed length is not looked at; the count of the
-- values is not checked, and where one is missing the result is `value_missing`.
pub add_sizes : List ColumnDefinition → List FieldValue → ℕ → Result ℕ
add_sizes [] values size = ok size
add_sizes (col ∷ cols) (v ∷ values) size = add_sizes cols values (
    if is_fixed_length col
    then size64 (align_offset size col.data_type + col.fixed_size)
    else value_size v size)
add_sizes (col ∷ cols) [] size =
    if is_fixed_length col
    then add_sizes cols [] (size64 (align_offset size col.data_type + col.fixed_size))
    else err value_missing

pub calculate_serialized_size : Schema → List FieldValue → Result ℕ
calculate_serialized_size schema values = do
  require schema.is_finalized not_finalized
  add_sizes schema.columns values (calculate_header_size (count_variable schema.columns 0))
