-- ===== src/Tuple/Accessor/Getters.antt =====
-- The typed getters of src/tuple/tuple_accessor.cpp, by index and by name.
use storage_prototype.Common.{ℕ, Bool, List}
use storage_prototype.Schema.{
  boolean, tinyint, smallint, integer, bigint, float, double, blob, Name,
}
use storage_prototype.Tuple.Field.{
  get_boolean, get_tinyint, get_smallint, get_integer, get_bigint, get_float, get_double, get_blob,
}
use storage_prototype.Tuple.Accessor.{Method, get_at, get_named}

pub get_boolean_at : ℕ → Method Bool
get_boolean_at i = get_at boolean get_boolean i

pub get_boolean_named : Name → Method Bool
get_boolean_named name = get_named boolean get_boolean name

pub get_tinyint_at : ℕ → Method ℕ
get_tinyint_at i = get_at tinyint get_tinyint i

pub get_tinyint_named : Name → Method ℕ
get_tinyint_named name = get_named tinyint get_tinyint name

pub get_smallint_at : ℕ → Method ℕ
get_smallint_at i = get_at smallint get_smallint i

pub get_smallint_named : Name → Method ℕ
get_smallint_named name = get_named smallint get_smallint name

pub get_integer_at : ℕ → Method ℕ
get_integer_at i = get_at integer get_integer i

pub get_integer_named : Name → Method ℕ
get_integer_named name = get_named integer get_integer name

pub get_bigint_at : ℕ → Method ℕ
get_bigint_at i = get_at bigint get_bigint i

pub get_bigint_named : Name → Method ℕ
get_bigint_named name = get_named bigint get_bigint name

pub get_float_at : ℕ → Method ℕ
get_float_at i = get_at float get_float i

pub get_float_named : Name → Method ℕ
get_float_named name = get_named float get_float name

pub get_double_at : ℕ → Method ℕ
get_double_at i = get_at double get_double i

pub get_double_named : Name → Method ℕ
get_double_named name = get_named double get_double name

pub get_blob_at : ℕ → Method (List ℕ)
get_blob_at i = get_at blob get_blob i

pub get_blob_named : Name → Method (List ℕ)
get_blob_named name = get_named blob get_blob name
