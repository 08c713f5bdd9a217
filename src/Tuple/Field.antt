-- ===== src/Tuple/Field.antt =====
-- include/tuple/field_value.h, src/tuple/field_value.cpp: a value of a column, its type and whether
-- it is null. The union is its 64 bits; a signed or floating number is its bit pattern, and a value
-- that is stored or read through a member of the union takes the member's low bits. A `runtime_error`
-- is the result `throws`.
use storage_prototype.Common.{
  ℕ, ◌+◌, ◌%◌, ◌^◌, Bool, true, false, not, ◌||◌, ltb, ◌==◌, if◌then◌else◌, List, [], length,
}
use storage_prototype.Schema.{
  DataType, boolean, tinyint, smallint, integer, bigint, float, double, char, varchar, text, blob,
  get_fixed_size, Name,
}
pub mod Reads

pub data FieldError : Type 0 where
  null_value : FieldError
  type_mismatch : FieldError

pub data Read (A : Type 0) : Type 0 where
  returns : A → Read A
  throws : FieldError → Read A

pub record FieldValue : Type 0 where
  pub type : DataType
  pub is_null : Bool
  pub bits : ℕ
  pub string_val : Name
  pub blob_val : List ℕ

-- The enumerator's value.
unfoldable pub type_code : DataType → ℕ
type_code boolean = 0
type_code tinyint = 1
type_code smallint = 2
type_code integer = 3
type_code bigint = 4
type_code float = 5
type_code double = 6
type_code char = 7
type_code varchar = 8
type_code text = 9
type_code blob = 10

abbrev pub has_type : FieldValue → DataType → Bool
has_type v t = type_code v.type == type_code t

-- The private constructor.
abbrev pub field_value : DataType → Bool → FieldValue
field_value type is_null = record {
  type = type;
  is_null = is_null;
  bits = 0;
  string_val = [];
  blob_val = [];
}

unfoldable pub field_null : DataType → FieldValue
field_null type = field_value type true

pub field_boolean : Bool → FieldValue
field_boolean value = record (field_value boolean false) { bits = if value then 1 else 0 }

pub field_tinyint : ℕ → FieldValue
field_tinyint value = record (field_value tinyint false) { bits = value % 2 ^ 8 }

pub field_smallint : ℕ → FieldValue
field_smallint value = record (field_value smallint false) { bits = value % 2 ^ 16 }

unfoldable pub field_integer : ℕ → FieldValue
field_integer value = record (field_value integer false) { bits = value % 2 ^ 32 }

pub field_bigint : ℕ → FieldValue
field_bigint value = record (field_value bigint false) { bits = value % 2 ^ 64 }

pub field_float : ℕ → FieldValue
field_float value = record (field_value float false) { bits = value % 2 ^ 32 }

pub field_double : ℕ → FieldValue
field_double value = record (field_value double false) { bits = value % 2 ^ 64 }

unfoldable pub field_char : Name → FieldValue
field_char value = record (field_value char false) { string_val = value }

unfoldable pub field_varchar : Name → FieldValue
field_varchar value = record (field_value varchar false) { string_val = value }

unfoldable pub field_text : Name → FieldValue
field_text value = record (field_value text false) { string_val = value }

unfoldable pub field_blob : List ℕ → FieldValue
field_blob value = record (field_value blob false) { blob_val = value }

-- The checks that each getter makes first.
abbrev pub checked : {A : Type 0} → FieldValue → Bool → A → Read A
checked v expected a =
    if v.is_null then throws null_value else if expected then returns a else throws type_mismatch

pub get_boolean : FieldValue → Read Bool
get_boolean v = checked v (has_type v boolean) (not (v.bits % 2 ^ 8 == 0))

pub get_tinyint : FieldValue → Read ℕ
get_tinyint v = checked v (has_type v tinyint) (v.bits % 2 ^ 8)

pub get_smallint : FieldValue → Read ℕ
get_smallint v = checked v (has_type v smallint) (v.bits % 2 ^ 16)

pub get_integer : FieldValue → Read ℕ
get_integer v = checked v (has_type v integer) (v.bits % 2 ^ 32)

pub get_bigint : FieldValue → Read ℕ
get_bigint v = checked v (has_type v bigint) (v.bits % 2 ^ 64)

pub get_float : FieldValue → Read ℕ
get_float v = checked v (has_type v float) (v.bits % 2 ^ 32)

pub get_double : FieldValue → Read ℕ
get_double v = checked v (has_type v double) (v.bits % 2 ^ 64)

pub get_string : FieldValue → Read Name
get_string v = checked v (has_type v char || has_type v varchar || has_type v text) v.string_val

pub get_blob : FieldValue → Read (List ℕ)
get_blob v = checked v (has_type v blob) v.blob_val

-- The switch of `GetSerializedSize`.
pub variable_size : FieldValue → ℕ
variable_size v =
    if has_type v char || has_type v varchar || has_type v text
    then 2 + length v.string_val
    else if has_type v blob
    then 2 + length v.blob_val
    else 0

pub get_serialized_size : FieldValue → ℕ
get_serialized_size v =
    let fixed_size = get_fixed_size v.type 0 in
    if v.is_null then 0 else if ltb 0 fixed_size then fixed_size else variable_size v
