-- ===== src/Tuple/Builder/Named.antt =====
-- The setters of src/tuple/tuple_builder.cpp that take the name of the column.
use storage_prototype.Common.{
  ℕ, Bool, true, false, ◌==◌, if◌then◌else◌, Option, none, some, List, [], ◌∷◌, length, ltb,
}
use storage_prototype.Schema.{
  DataType, boolean, tinyint, smallint, integer, bigint, float, double, char, varchar, text, blob,
  Name, ColumnDefinition, Schema, get_column, get_column_named, has_column,
}
use storage_prototype.Tuple.Field.{
  FieldValue, type_code, field_boolean, field_tinyint, field_smallint, field_integer, field_bigint,
  field_float, field_double, field_char, field_varchar, field_text, field_blob,
}
use storage_prototype.Tuple.Builder.{
  TupleBuilder, Outcome, done, fails, column_not_found, wrong_type, index_out_of_bounds, put,
  null_checked,
}
pub mod ByIndex

-- `GetFieldIndex`, where the lookup by name gave a column, for what is done with the index. A name
-- that the map knows has a column in any schema that `AddColumn` made; where it has none, the C++
-- code reads past the columns.
abbrev pub at_index :
    Bool → Option ColumnDefinition → (ℕ → Outcome TupleBuilder) → Outcome TupleBuilder
at_index false col next = fails column_not_found
at_index true none next = fails index_out_of_bounds
at_index true (some col) next = next col.field_index

pub with_field_index : Schema → Name → (ℕ → Outcome TupleBuilder) → Outcome TupleBuilder
with_field_index s name next = at_index (has_column s name) (get_column_named s name) next

-- `ValidateColumnName`, and what follows it.
abbrev pub if_type :
    Bool → Option ColumnDefinition → DataType → Outcome TupleBuilder → Outcome TupleBuilder
if_type false col expected rest = fails column_not_found
if_type true none expected rest = fails index_out_of_bounds
if_type true (some col) expected rest =
    if type_code col.data_type == type_code expected then rest else fails wrong_type

pub validate_column_name : Schema → Name → DataType → Outcome TupleBuilder → Outcome TupleBuilder
validate_column_name s name expected rest =
    if_type (has_column s name) (get_column_named s name) expected rest

-- values_[index] = v. The C++ code does not check the index, which in a schema that `AddColumn` made is
-- that of a column; where it is not, the write is out of bounds, and here the result says so.
pub assign : TupleBuilder → FieldValue → ℕ → Outcome TupleBuilder
assign b v index =
    if ltb index (length b.values) then done (put b index v) else fails index_out_of_bounds

-- A setter by name, for the value that it makes.
pub set_named : DataType → FieldValue → Name → TupleBuilder → Outcome TupleBuilder
set_named expected v name b =
    validate_column_name b.schema name expected (with_field_index b.schema name (assign b v))

pub set_null : Name → TupleBuilder → Outcome TupleBuilder
set_null name b =
    with_field_index b.schema name (λ index. null_checked b index (get_column b.schema index))

pub set_boolean : Name → Bool → TupleBuilder → Outcome TupleBuilder
set_boolean name value b = set_named boolean (field_boolean value) name b

pub set_tinyint : Name → ℕ → TupleBuilder → Outcome TupleBuilder
set_tinyint name value b = set_named tinyint (field_tinyint value) name b

pub set_smallint : Name → ℕ → TupleBuilder → Outcome TupleBuilder
set_smallint name value b = set_named smallint (field_smallint value) name b

pub set_integer : Name → ℕ → TupleBuilder → Outcome TupleBuilder
set_integer name value b = set_named integer (field_integer value) name b

pub set_bigint : Name → ℕ → TupleBuilder → Outcome TupleBuilder
set_bigint name value b = set_named bigint (field_bigint value) name b

pub set_float : Name → ℕ → TupleBuilder → Outcome TupleBuilder
set_float name value b = set_named float (field_float value) name b

pub set_double : Name → ℕ → TupleBuilder → Outcome TupleBuilder
set_double name value b = set_named double (field_double value) name b

pub set_char : Name → Name → TupleBuilder → Outcome TupleBuilder
set_char name value b = set_named char (field_char value) name b

pub set_varchar : Name → Name → TupleBuilder → Outcome TupleBuilder
set_varchar name value b = set_named varchar (field_varchar value) name b

pub set_text : Name → Name → TupleBuilder → Outcome TupleBuilder
set_text name value b = set_named text (field_text value) name b

pub set_blob : Name → List ℕ → TupleBuilder → Outcome TupleBuilder
set_blob name value b = set_named blob (field_blob value) name b
