-- ===== src/Tests/TupleTests.antt =====
-- The theorems on schemas and tuple headers, at small ones.
use storage_prototype.Common.{
  ℕ, ◌+◌, ◌≤◌, ◌<◌, ◌≡◌, ◌⊎◌, arith, refl, true, false, if◌then◌else◌, some, none, [], ◌∷◌,
}
use storage_prototype.Schema.{
  Schema, Name, new_schema, add_column, new_column, integer, same_name, get_column,
  get_column_count, get_column_named, has_column,
}
use storage_prototype.Schema.Columns.{Indexed, new_schema-Indexed, add_column_lem}
use storage_prototype.Tuple.Header.{TupleHeader, serialize_to, deserialize_from, get_header_size}
use storage_prototype.Tuple.Header.Nulls.{IsHeader}
use storage_prototype.Tuple.Header.Image.{deserialize_from-serialize_to}
use storage_prototype.Tuple.Field.{FieldValue, field_tinyint, field_integer}
use storage_prototype.Common.{replicate, length}
use storage_prototype.Tuple.Field.{type_code}
use storage_prototype.Tuple.Builder.{
  TupleBuilder, done, fails, field_not_set, set_at, set_null_at, fill, build,
}
use storage_prototype.Tuple.Builder.Typed.{
  Typed, Row, Complete, Missing, KeepsTyped, Typed-replicate, build_lem, set_at_lem,
}

abbrev id_name : Name
id_name = 105 ∷ 100 ∷ []

-- A nullable integer column.
abbrev one_column : Schema
one_column = add_column new_schema id_name integer true 0

add_column_lem_example :
    (get_column_count one_column ≡ get_column_count new_schema + 1)
    × ((q : Name)
        → get_column_named one_column q ≡ (
            if same_name id_name q
            then some (new_column new_schema id_name integer true 0)
            else get_column_named new_schema q))
    × ((q : Name)
        → has_column one_column q ≡ (if same_name id_name q then true else has_column new_schema q))
    × ((i : ℕ)
        → i < get_column_count new_schema
        → get_column one_column i ≡ get_column new_schema i)
    × Indexed one_column
add_column_lem_example =
    add_column_lem new_schema id_name integer true 0 (omega arith) new_schema-Indexed

-- Ten fields, two of them of variable length.
abbrev ten_fields : TupleHeader
ten_fields = record {
  null_bitmap = 10;
  field_count = 10;
  var_field_count = 2;
  var_offsets = 16 ∷ 40 ∷ [];
}

ten_fields-IsHeader : IsHeader ten_fields
ten_fields-IsHeader = record { few_fields = omega arith; bitmap_fits = omega arith; offsets = refl }

deserialize_from-serialize_to_example :
    (deserialize_from (serialize_to ten_fields (λ x. 0)) 10 2 ≡ some ten_fields)
    × ((x : ℕ) → get_header_size ten_fields ≤ x → serialize_to ten_fields (λ x. 0) x ≡ 0)
deserialize_from-serialize_to_example =
    deserialize_from-serialize_to ten_fields (λ x. 0) ten_fields-IsHeader
      (omega arith, (omega arith, tt))

abbrev a_number : FieldValue
a_number = field_tinyint 200

-- A builder for the one column, with nothing set.
abbrev empty_builder : TupleBuilder
empty_builder = record { schema = one_column; values = replicate (length one_column.columns) none }

empty_builder-Typed : Typed empty_builder.schema.columns empty_builder.values
empty_builder-Typed = Typed-replicate one_column.columns

build_lem_example :
    (Complete one_column.columns empty_builder.values
      × (build empty_builder ≡ done (fill one_column.columns empty_builder.values))
      × Row one_column.columns (fill one_column.columns empty_builder.values))
    ⊎ (Missing one_column.columns empty_builder.values
        × (build empty_builder ≡ fails field_not_set))
build_lem_example = build_lem empty_builder empty_builder-Typed

made_integer : type_code (field_integer 7).type ≡ type_code integer
unfolding field_integer
made_integer = refl

made_value : (field_integer 7).is_null ≡ false
unfolding field_integer
made_value = refl

set_at_lem_example :
    KeepsTyped empty_builder (set_at integer (field_integer 7) 0 empty_builder)
    × KeepsTyped empty_builder (set_null_at 0 empty_builder)
set_at_lem_example =
    set_at_lem empty_builder integer (field_integer 7) 0 empty_builder-Typed made_integer made_value
