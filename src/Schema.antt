-- ===== src/Schema.antt =====
-- include/common/types.h, include/schema, src/schema/alignment.cpp and src/schema/schema.cpp: data
-- types, their alignment, and the layout of a table's columns. A `size_t` is cut to 64 bits and a
-- `uint16_t` to 16; a `std::string` is the list of its bytes.
use storage_prototype.Common.{
  ℕ, zero, suc, ◌+◌, ◌-◌, ◌*◌, ◌/◌, ◌%◌, ◌^◌, Bool, true, false, ◌&&◌, not, ltb, ◌==◌,
  if◌then◌else◌, Option, none, some, List, [], ◌∷◌, ◌++◌, length, get_elem?,
}
pub mod Alignment
pub mod Layout
pub mod Columns
pub mod Numbering
pub mod Setters

pub data DataType : Type 0 where
  boolean : DataType
  tinyint : DataType
  smallint : DataType
  integer : DataType
  bigint : DataType
  float : DataType
  double : DataType
  char : DataType
  varchar : DataType
  text : DataType
  blob : DataType

unfoldable pub calculate_alignment : DataType → ℕ
calculate_alignment boolean = 1
calculate_alignment tinyint = 1
calculate_alignment char = 1
calculate_alignment varchar = 1
calculate_alignment text = 1
calculate_alignment blob = 1
calculate_alignment smallint = 2
calculate_alignment integer = 4
calculate_alignment float = 4
calculate_alignment bigint = 8
calculate_alignment double = 8

unfoldable pub calculate_padding : ℕ → ℕ → ℕ
calculate_padding current_offset alignment_value =
    if alignment_value == 0
    then 0
    else (alignment_value - current_offset % alignment_value) % alignment_value

unfoldable pub align_offset : ℕ → DataType → ℕ
align_offset offset type =
    let align_value = calculate_alignment type in
    let padding_needed = calculate_padding offset align_value in (offset + padding_needed) % 2 ^ 64

unfoldable pub get_fixed_size : DataType → ℕ → ℕ
get_fixed_size boolean size_param = 1
get_fixed_size tinyint size_param = 1
get_fixed_size smallint size_param = 2
get_fixed_size integer size_param = 4
get_fixed_size float size_param = 4
get_fixed_size bigint size_param = 8
get_fixed_size double size_param = 8
get_fixed_size char size_param = if ltb 0 size_param then size_param else 0
get_fixed_size varchar size_param = 0
get_fixed_size text size_param = 0
get_fixed_size blob size_param = 0

abbrev pub Name : Type 0
Name = List ℕ

pub record ColumnDefinition : Type 0 where
  pub column_name : Name
  pub data_type : DataType
  pub is_nullable : Bool
  pub fixed_size : ℕ
  pub max_size : ℕ
  pub offset : ℕ
  pub field_index : ℕ

-- The constructor of `ColumnDefinition`.
unfoldable pub column_definition : Name → DataType → Bool → ℕ → ColumnDefinition
column_definition column_name data_type is_nullable size_param =
    let determined_fixed = get_fixed_size data_type size_param in
    record {
      column_name = column_name;
      data_type = data_type;
      is_nullable = is_nullable;
      fixed_size = if ltb 0 determined_fixed then determined_fixed else 0;
      max_size = if ltb 0 determined_fixed then determined_fixed else size_param;
      offset = 0;
      field_index = 0;
    }

abbrev pub is_fixed_length : ColumnDefinition → Bool
is_fixed_length c = ltb 0 c.fixed_size

-- `column_name_to_index` is the list of the assignments to the map, the last one first.
pub record Schema : Type 0 where
  pub columns : List ColumnDefinition
  pub is_finalized : Bool
  pub all_fixed : Bool
  pub tuple_size : ℕ
  pub null_bitmap_size : ℕ
  pub nullable_count : ℕ
  pub column_name_to_index : List (Name × ℕ)

abbrev pub new_schema : Schema
new_schema = record {
  columns = [];
  is_finalized = false;
  all_fixed = true;
  tuple_size = 0;
  null_bitmap_size = 0;
  nullable_count = 0;
  column_name_to_index = [];
}

pub same_name : Name → Name → Bool
same_name [] [] = true
same_name [] (b ∷ bs) = false
same_name (a ∷ rest) [] = false
same_name (a ∷ rest) (b ∷ bs) = (a == b) && same_name rest bs

-- The map's value at a name.
pub find_index : List (Name × ℕ) → Name → Option ℕ
find_index [] name = none
find_index ((n, i) ∷ rest) name = if same_name n name then some i else find_index rest name

unfoldable pub new_column : Schema → Name → DataType → Bool → ℕ → ColumnDefinition
new_column s name type nullable size_param =
    record (column_definition name type nullable size_param) {
      field_index = length s.columns % 2 ^ 16;
    }

unfoldable pub add_column : Schema → Name → DataType → Bool → ℕ → Schema
add_column s name type nullable size_param = record s {
  columns = s.columns ++ (new_column s name type nullable size_param ∷ []);
  column_name_to_index = (name, length s.columns % 2 ^ 16) ∷ s.column_name_to_index;
  nullable_count = if nullable then (s.nullable_count + 1) % 2 ^ 16 else s.nullable_count;
}

-- The loop of `Finalize`: the columns with their offsets, the last offset, and whether every column
-- has a fixed length.
pub lay_out : ℕ → List ColumnDefinition → List ColumnDefinition × ℕ × Bool
lay_out current_offset [] = ([], current_offset, true)
lay_out current_offset (col ∷ cols) =
    let offset = align_offset current_offset col.data_type in
    let (cols', last, all_fixed_length) = lay_out ((offset + col.fixed_size) % 2 ^ 64) cols in
    (record col { offset = offset } ∷ cols', last, not (col.fixed_size == 0) && all_fixed_length)

pub finalize : Schema → Schema
finalize s =
    let bitmap_size = (s.nullable_count + 7) / 8 in
    let (cols, last, all_fixed_length) = lay_out bitmap_size s.columns in
    if s.is_finalized then s else record s {
      columns = cols;
      null_bitmap_size = bitmap_size;
      all_fixed = all_fixed_length;
      tuple_size = last;
      is_finalized = true;
    }

unfoldable pub get_column_count : Schema → ℕ
get_column_count s = length s.columns

-- columns_[index], none where it is out of range.
unfoldable pub get_column : Schema → ℕ → Option ColumnDefinition
get_column s index = get_elem? s.columns index

-- What a look-up by name returns for what it finds in the map.
pub column_at : List ColumnDefinition → Option ℕ → Option ColumnDefinition
column_at cols (some index) = get_elem? cols index
column_at cols none = some (column_definition [] boolean false 0)

pub get_column_named : Schema → Name → Option ColumnDefinition
get_column_named s name = column_at s.columns (find_index s.column_name_to_index name)

abbrev pub is_some {ℓ} : {A : Type ℓ} → Option A → Bool
is_some (some a) = true
is_some none = false

pub has_column : Schema → Name → Bool
has_column s name = is_some (find_index s.column_name_to_index name)
