-- ===== src/Tuple/Accessor.antt =====
-- include/tuple/tuple_accessor.h, src/tuple/tuple_accessor.cpp: the fields of a serialized tuple, read by
-- index and by name. The values are deserialized at the first read and kept. The schema and the
-- buffer do not change while the accessor lives. A method takes the accessor and returns its result,
-- or the exception, with the accessor after the call.
use storage_prototype.Common.{
  ℕ, Bool, true, false, not, ◌&&◌, ltb, ◌==◌, if◌then◌else◌, Option, none, some, List, [],
  get_elem?,
}
use storage_prototype.Memory.{Memory}
use storage_prototype.Schema.{
  DataType, boolean, tinyint, smallint, integer, bigint, float, double, char, varchar, text, blob,
  Name, ColumnDefinition, Schema, get_column, get_column_count, get_column_named, has_column,
}
use storage_prototype.Tuple.Field.{
  FieldValue, FieldError, Read, returns, throws, type_code, get_boolean, get_tinyint, get_smallint,
  get_integer, get_bigint, get_float, get_double, get_string, get_blob,
}
use storage_prototype.Tuple.Header.{TupleHeader, is_field_null, deserialize_from}
use storage_prototype.Tuple.Serializer.{SerializeError, Result, ok, err, uint16}
use storage_prototype.Tuple.Serializer.Size.{count_variable}
use storage_prototype.Tuple.Serializer.Fixed.{deserialize_fixed_length}
use storage_prototype.Tuple.Serializer.Variable.{deserialize_variable_length}
pub mod Getters
pub mod Cache
pub mod Stateless
pub mod ByName
pub mod Calls
pub mod EndToEnd

pub data AccessError : Type 0 where
  schema_not_final : AccessError
  no_column : AccessError
  no_index : AccessError
  other_type : AccessError
  not_deserialized : SerializeError → AccessError
  not_read : FieldError → AccessError
  failed_assertion : AccessError

pub data Access {ℓ} (A : Type ℓ) : Type ℓ where
  gives : A → Access A
  raises : AccessError → Access A

pub record TupleAccessor : Type 0 where
  pub schema : Schema
  pub buffer : Memory
  pub buffer_size : ℕ
  pub header : TupleHeader
  pub cached_values : List FieldValue
  pub is_deserialized : Bool

abbrev pub Method {ℓ} : Type ℓ → Type ℓ
Method A = TupleAccessor → Access A × TupleAccessor

abbrev pub continue {ℓ κ} :
    {A : Type ℓ} {B : Type κ} → Access A → TupleAccessor → (A → Method B) → Access B × TupleAccessor
continue (gives x) a f = f x a
continue (raises e) a f = (raises e, a)

infixl 5 ◌>>=◌
abbrev pub ◌>>=◌ {ℓ ℓ'} :
    {Before : Type ℓ} {After : Type ℓ'} → Method Before → (Before → Method After) → Method After
◌>>=◌ call next a = continue (call a).0 (call a).1 next

infixl 5 ◌>>◌
abbrev pub ◌>>◌ {ℓ} : {After : Type ℓ} → Method (Unit {0}) → Method After → Method After
check >> next = check >>= (λ passed. next)

-- A check or a read of what does not change.
abbrev pub look {ℓ} : {A : Type ℓ} → (TupleAccessor → Access A) → Method A
look f a = (f a, a)

abbrev pub present {ℓ} : {A : Type ℓ} → AccessError → Option A → Access A
present e (some x) = gives x
present e none = raises e

abbrev pub read_result : {A : Type 0} → Read A → Access A
read_result (returns x) = gives x
read_result (throws e) = raises (not_read e)

abbrev pub new_accessor : Schema → Memory → ℕ → TupleHeader → TupleAccessor
new_accessor schema buffer buffer_size header = record {
  schema = schema;
  buffer = buffer;
  buffer_size = buffer_size;
  header = header;
  cached_values = [];
  is_deserialized = false;
}

abbrev pub from_header : Schema → Memory → ℕ → Option TupleHeader → Access TupleAccessor
from_header schema buffer buffer_size none = raises failed_assertion
from_header schema buffer buffer_size (some header) =
    gives (new_accessor schema buffer buffer_size header)

pub tuple_accessor : Schema → Memory → ℕ → Access TupleAccessor
tuple_accessor schema buffer buffer_size =
    if schema.is_finalized
    then from_header schema buffer buffer_size (
        deserialize_from buffer (uint16 (get_column_count schema))
          (count_variable schema.columns 0))
    else raises schema_not_final

-- What the two branches of `EnsureDeserialized` assign.
pub deserialized : TupleAccessor → Result (List FieldValue)
deserialized a =
    if a.schema.all_fixed
    then deserialize_fixed_length a.schema a.buffer a.buffer_size
    else deserialize_variable_length a.schema a.buffer a.buffer_size

pub keep_values : TupleAccessor → Result (List FieldValue) → Access (Unit {0}) × TupleAccessor
keep_values a (ok values) = (gives tt, record a { cached_values = values; is_deserialized = true })
keep_values a (err e) = (raises (not_deserialized e), a)

pub ensure_deserialized : Method (Unit {0})
ensure_deserialized a = if a.is_deserialized then (gives tt, a) else keep_values a (deserialized a)

-- The type of the column is the expected one.
abbrev pub of_type : DataType → ColumnDefinition → Access (Unit {0})
of_type expected col =
    if type_code col.data_type == type_code expected then gives tt else raises other_type

abbrev pub is_string : ColumnDefinition → Access (Unit {0})
is_string col =
    if not (type_code col.data_type == type_code char)
      && not (type_code col.data_type == type_code varchar)
      && not (type_code col.data_type == type_code text)
    then raises other_type
    else gives tt

-- The column of a name that the schema has. Where it has no column for the name, the C++ code reads
-- past the columns; `AddColumn` makes no such schema.
pub column_named : Name → Method ColumnDefinition
column_named name = look (λ a.
    if has_column a.schema name
    then present no_index (get_column_named a.schema name)
    else raises no_column)

pub column_at_index : ℕ → Method ColumnDefinition
column_at_index i = look (λ a. present no_index (get_column a.schema i))

pub field_index_of : Name → Method ℕ
field_index_of name = do col ← column_named name; look (λ a. gives col.field_index)

pub validate_name : Name → DataType → Method (Unit {0})
validate_name name expected = do col ← column_named name; look (λ a. of_type expected col)

pub validate_field_index : ℕ → DataType → Method (Unit {0})
validate_field_index i expected = do col ← column_at_index i; look (λ a. of_type expected col)

-- header_.IsFieldNull(index)
pub header_null : ℕ → Method Bool
header_null i = look (λ a. present failed_assertion (is_field_null a.header (uint16 i)))

pub is_null_at : ℕ → Method Bool
is_null_at i = do col ← column_at_index i; header_null i

pub is_null_named : Name → Method Bool
is_null_named name = do i ← field_index_of name; header_null i

-- cached_values_[index], where a read past them is out of bounds.
pub cached_value : ℕ → Method FieldValue
cached_value i = do ensure_deserialized; look (λ a. present no_index (get_elem? a.cached_values i))

-- A getter by index and by name, by the type that it expects and the getter of the value.
module _ {A : Type 0} (expected : DataType) (get : FieldValue → Read A) where
  pub get_at : ℕ → Method A
  get_at i = do validate_field_index i expected; v ← cached_value i; look (λ a. read_result (get v))

  pub get_named : Name → Method A
  get_named name = do validate_name name expected; i ← field_index_of name; get_at i

pub get_string_at : ℕ → Method Name
get_string_at i = do
  col ← column_at_index i
  look (λ a. is_string col)
  v ← cached_value i
  look (λ a. read_result (get_string v))

pub get_string_named : Name → Method Name
get_string_named name = do
  i ← field_index_of name
  col ← column_at_index i
  look (λ a. is_string col)
  get_string_at i

pub get_field_value_at : ℕ → Method FieldValue
get_field_value_at i = do col ← column_at_index i; cached_value i

pub get_field_value_named : Name → Method FieldValue
get_field_value_named name = do i ← field_index_of name; get_field_value_at i
