-- ===== src/Tuple/Builder.antt =====
-- include/tuple/tuple_builder.h, src/tuple/tuple_builder.cpp: the values of a tuple, set one by one and
-- checked against the schema. The schema is finalized and no longer changes; an exception is the
-- result `fails`, and leaves the builder as it was.
use storage_prototype.Common.{
  ℕ, zero, suc, Bool, true, false, not, ◌&&◌, leb, ◌==◌, if◌then◌else◌, Option, none, some, List,
  [], ◌∷◌, length, get_elem?, set, replicate,
}
use storage_prototype.Schema.{
  DataType, boolean, tinyint, smallint, integer, bigint, float, double, char, varchar, text, blob,
  Name, ColumnDefinition, Schema, get_column, get_column_count, get_column_named, has_column,
}
use storage_prototype.Tuple.Field.{
  FieldValue, type_code, field_null, field_boolean, field_tinyint, field_smallint, field_integer,
  field_bigint, field_float, field_double, field_char, field_varchar, field_text, field_blob,
}
pub mod Typed
pub mod Named

pub data BuildError : Type 0 where
  schema_not_finalized : BuildError
  column_not_found : BuildError
  wrong_type : BuildError
  index_out_of_bounds : BuildError
  null_not_allowed : BuildError
  field_not_set : BuildError

pub data Outcome (A : Type 0) : Type 0 where
  done : A → Outcome A
  fails : BuildError → Outcome A

pub record TupleBuilder : Type 0 where
  pub schema : Schema
  pub values : List (Option FieldValue)

pub tuple_builder : Schema → Outcome TupleBuilder
tuple_builder schema =
    if schema.is_finalized
    then done (record { schema = schema; values = replicate (get_column_count schema) none })
    else fails schema_not_finalized

pub put : TupleBuilder → ℕ → FieldValue → TupleBuilder
put b index v = record b { values = set b.values index (some v) }

-- `ValidateFieldIndex`, then the assignment, given the column at the index.
pub put_checked :
    TupleBuilder → ℕ → DataType → FieldValue → Option ColumnDefinition → Outcome TupleBuilder
put_checked b index expected v none = fails index_out_of_bounds
put_checked b index expected v (some col) =
    if type_code col.data_type == type_code expected then done (put b index v) else fails wrong_type

-- A setter by index, for the value that it makes.
pub set_at : DataType → FieldValue → ℕ → TupleBuilder → Outcome TupleBuilder
set_at expected v index b = put_checked b index expected v (get_column b.schema index)

-- `SetNull` by index, given the column there.
pub null_checked : TupleBuilder → ℕ → Option ColumnDefinition → Outcome TupleBuilder
null_checked b index none = fails index_out_of_bounds
null_checked b index (some col) =
    if col.is_nullable
    then done (put b index (field_null col.data_type))
    else fails null_not_allowed

pub set_null_at : ℕ → TupleBuilder → Outcome TupleBuilder
set_null_at index b = null_checked b index (get_column b.schema index)

pub set_boolean_at : ℕ → Bool → TupleBuilder → Outcome TupleBuilder
set_boolean_at index value b = set_at boolean (field_boolean value) index b

pub set_tinyint_at : ℕ → ℕ → TupleBuilder → Outcome TupleBuilder
set_tinyint_at index value b = set_at tinyint (field_tinyint value) index b

pub set_smallint_at : ℕ → ℕ → TupleBuilder → Outcome TupleBuilder
set_smallint_at index value b = set_at smallint (field_smallint value) index b

pub set_integer_at : ℕ → ℕ → TupleBuilder → Outcome TupleBuilder
set_integer_at index value b = set_at integer (field_integer value) index b

pub set_bigint_at : ℕ → ℕ → TupleBuilder → Outcome TupleBuilder
set_bigint_at index value b = set_at bigint (field_bigint value) index b

pub set_float_at : ℕ → ℕ → TupleBuilder → Outcome TupleBuilder
set_float_at index value b = set_at float (field_float value) index b

pub set_double_at : ℕ → ℕ → TupleBuilder → Outcome TupleBuilder
set_double_at index value b = set_at double (field_double value) index b

pub set_char_at : ℕ → Name → TupleBuilder → Outcome TupleBuilder
set_char_at index value b = set_at char (field_char value) index b

pub set_varchar_at : ℕ → Name → TupleBuilder → Outcome TupleBuilder
set_varchar_at index value b = set_at varchar (field_varchar value) index b

pub set_text_at : ℕ → Name → TupleBuilder → Outcome TupleBuilder
set_text_at index value b = set_at text (field_text value) index b

pub set_blob_at : ℕ → List ℕ → TupleBuilder → Outcome TupleBuilder
set_blob_at index value b = set_at blob (field_blob value) index b

-- `ValidateComplete` over the columns and their values.
pub is_complete : List ColumnDefinition → List (Option FieldValue) → Bool
is_complete [] values = true
is_complete (col ∷ cols) [] = col.is_nullable && is_complete cols []
is_complete (col ∷ cols) (none ∷ values) = col.is_nullable && is_complete cols values
is_complete (col ∷ cols) (some v ∷ values) = is_complete cols values

-- The loop of `Build`.
pub fill : List ColumnDefinition → List (Option FieldValue) → List FieldValue
fill cols [] = []
fill [] (v ∷ values) = []
fill (col ∷ cols) (some v ∷ values) = v ∷ fill cols values
fill (col ∷ cols) (none ∷ values) = field_null col.data_type ∷ fill cols values

pub build : TupleBuilder → Outcome (List FieldValue)
build b =
    if is_complete b.schema.columns b.values
    then done (fill b.schema.columns b.values)
    else fails field_not_set

pub reset : TupleBuilder → TupleBuilder
reset b = record b { values = replicate (get_column_count b.schema) none }
