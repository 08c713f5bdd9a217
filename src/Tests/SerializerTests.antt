-- ===== src/Tests/SerializerTests.antt =====
-- The theorems on the tuple serializer and accessor, at a small schema.
use storage_prototype.Common.{
  ℕ, ◌+◌, ◌^◌, ◌≤◌, ◌≡◌, arith, refl, true, false, inl, inr, some, List, [], ◌∷◌, length,
}
use storage_prototype.Memory.{Memory}
use storage_prototype.Schema.{
  Schema, Name, new_schema, add_column, column_definition, get_fixed_size, calculate_alignment,
  calculate_padding, align_offset, find_index, integer, boolean, char, varchar, blob,
}
use storage_prototype.Schema.Layout.{extent}
use storage_prototype.Schema.Columns.{new_schema-Indexed, add_column_lem}
use storage_prototype.Schema.Numbering.{IsNumbered, new_schema-IsNumbered, add_column-IsNumbered}
use storage_prototype.Tuple.Field.{
  FieldValue, get_integer, field_integer, field_boolean, field_char, field_varchar, field_null,
}
use storage_prototype.Tuple.Header.{TupleHeader, calculate_header_size}
use storage_prototype.Tuple.Header.Image.{calculate_header_size_lem}
use storage_prototype.Tuple.Builder.{TupleBuilder, set_at, set_null_at}
use storage_prototype.Tuple.Builder.Named.{set_named, set_null}
use storage_prototype.Tuple.Builder.Named.ByIndex.{found_at, set_named_lem}
use storage_prototype.Tuple.Serializer.{ok}
use storage_prototype.Tuple.Serializer.Scalars.{HoldsScalar}
use storage_prototype.Tuple.Serializer.Size.{calculate_serialized_size}
use storage_prototype.Tuple.Serializer.Size.OfFixed.{calculate_fixed}
use storage_prototype.Tuple.Serializer.Fixed.{serialize_fixed_length}
use storage_prototype.Tuple.Serializer.Variable.{serialize_variable_length}
use storage_prototype.Tuple.Serializer.Variable.Data.{HoldsData}
use storage_prototype.Tuple.Serializer.Variable.First.{HoldsFields}
use storage_prototype.Tuple.Serializer.Variable.SecondLoop.{variable_count, total_size}
use storage_prototype.Tuple.Serializer.Variable.RoundTrip.{
  SerializedFields, deserialize_variable_length-serialize_variable_length,
}
use storage_prototype.Tuple.Serializer.Fixed.Values.{HoldsValue}
use storage_prototype.Tuple.Serializer.Fixed.Loops.{HoldsAll}
use storage_prototype.Tuple.Serializer.Fixed.RoundTrip.{
  Serialized, deserialize_fixed_length-serialize_fixed_length,
}
use storage_prototype.Tuple.Accessor.{
  TupleAccessor, gives, new_accessor, tuple_accessor, is_null_at, is_null_named, get_at, get_named,
  get_string_at, get_string_named, get_field_value_at, get_field_value_named,
}
use storage_prototype.Tuple.Accessor.Cache.{IsCached, Matches}
use storage_prototype.Tuple.Accessor.Calls.{after_calls, null_call, value_call, string_call}
use storage_prototype.Tuple.Accessor.Stateless.{
  null_of, typed_of, string_of, field_of, accessor_lem,
}
use storage_prototype.Tuple.Accessor.ByName.{where_found, named_lem}
use storage_prototype.Tuple.Accessor.EndToEnd.{Shows, serialize_access, serialize_access_variable}

abbrev id_name : Name
id_name = 105 ∷ 100 ∷ []

-- A Boolean, an integer that may be null, and a string of up to four bytes.
abbrev sample_schema : Schema
sample_schema = record {
  columns =
      column_definition id_name boolean false 0
      ∷ column_definition id_name integer true 0
      ∷ column_definition id_name char false 4
      ∷ [];
  is_finalized = true;
  all_fixed = true;
  tuple_size = 13;
  null_bitmap_size = 1;
  nullable_count = 1;
  column_name_to_index = [];
}

sample_extent : extent sample_schema.columns + 23 ≤ 2 ^ 64
unfolding column_definition get_fixed_size
sample_extent = omega arith

sample_values-HoldsAll :
    HoldsAll sample_schema.columns
      (field_boolean true ∷ field_null integer ∷ field_char id_name ∷ [])
unfolding HoldsValue HoldsScalar column_definition get_fixed_size
sample_values-HoldsAll = (
  inr (true, refl, omega arith),
  (
    inl refl,
    (
      inr (id_name, refl, omega arith, (omega arith, omega arith, (omega arith, omega arith, tt))),
      tt,
    ),
  ),
)

sample_size :
    calculate_serialized_size sample_schema
      (field_boolean true ∷ field_null integer ∷ field_char id_name ∷ [])
    ≡ ok 20
unfolding align_offset calculate_padding calculate_alignment column_definition get_fixed_size
sample_size = calculate_fixed sample_schema _ refl refl sample_extent

deserialize_fixed_length-serialize_fixed_length_example :
    Serialized sample_schema
      (field_boolean true ∷ field_null integer ∷ field_char id_name ∷ [])
      (λ x. 7)
      24
      20
unfolding column_definition get_fixed_size
deserialize_fixed_length-serialize_fixed_length_example =
    deserialize_fixed_length-serialize_fixed_length sample_schema
      (field_boolean true ∷ field_null integer ∷ field_char id_name ∷ []) (λ x. 7) 24 20 refl refl
      refl (omega arith) sample_values-HoldsAll sample_extent sample_size (omega arith)

serialize_access_example :
    (buffer : Memory) × (start : TupleAccessor) × (serialize_fixed_length sample_schema
        (field_boolean true ∷ field_null integer ∷ field_char id_name ∷ [])
        (λ x. 7)
        24
      ≡ ok (buffer, 20))
    × (tuple_accessor sample_schema buffer 24 ≡ gives start)
    × Shows
        (field_boolean true ∷ field_null integer ∷ field_char id_name ∷ [])
        2
        (after_calls (null_call 1 ∷ value_call 1 ∷ []) start)
unfolding column_definition get_fixed_size
serialize_access_example =
    serialize_access sample_schema
      (field_boolean true ∷ field_null integer ∷ field_char id_name ∷ []) (λ x. 7) 24 20
      (null_call 1 ∷ value_call 1 ∷ []) 2 refl refl refl (omega arith) sample_values-HoldsAll
      sample_extent sample_size (omega arith)

-- A schema with one column, made by `AddColumn`.
abbrev named_schema : Schema
named_schema = add_column new_schema id_name integer true 0

named_schema-IsNumbered : IsNumbered named_schema
named_schema-IsNumbered =
    let (_, _, _, _, indexed) =
      add_column_lem new_schema id_name integer true 0 (omega arith) new_schema-Indexed in
    add_column-IsNumbered new_schema id_name integer true 0 (omega arith) indexed
      (new_schema-IsNumbered new_schema-Indexed)

abbrev one_field : TupleHeader
one_field = record { null_bitmap = 0; field_count = 1; var_field_count = 0; var_offsets = [] }

abbrev named_accessor : TupleAccessor
named_accessor = new_accessor named_schema (λ x. 0) 64 one_field

named_accessor-IsCached : IsCached named_accessor
named_accessor-IsCached h = absurd (cc (h))

accessor_lem_example :
    Matches (is_null_at 0) (null_of 0) named_accessor
    × Matches (get_at integer get_integer 0) (typed_of integer get_integer 0) named_accessor
    × Matches (get_string_at 0) (string_of 0) named_accessor
    × Matches (get_field_value_at 0) (field_of 0) named_accessor
accessor_lem_example = accessor_lem integer get_integer 0 named_accessor named_accessor-IsCached

named_lem_example :
    (is_null_named id_name named_accessor
      ≡ where_found
          (find_index named_schema.column_name_to_index id_name)
          is_null_at
          named_accessor)
    × (get_named integer get_integer id_name named_accessor
        ≡ where_found
            (find_index named_schema.column_name_to_index id_name)
            (get_at integer get_integer)
            named_accessor)
    × (get_string_named id_name named_accessor
        ≡ where_found
            (find_index named_schema.column_name_to_index id_name)
            get_string_at
            named_accessor)
    × (get_field_value_named id_name named_accessor
        ≡ where_found
            (find_index named_schema.column_name_to_index id_name)
            get_field_value_at
            named_accessor)
named_lem_example = named_lem integer get_integer id_name named_accessor named_schema-IsNumbered

abbrev named_builder : TupleBuilder
named_builder = record { schema = named_schema; values = some (field_integer 3) ∷ [] }

one_value : length named_builder.values ≡ length named_schema.columns
unfolding add_column
one_value = refl

set_named_lem_example :
    (set_named integer (field_integer 7) id_name named_builder
      ≡ found_at
          (find_index named_schema.column_name_to_index id_name)
          (λ i. set_at integer (field_integer 7) i named_builder))
    × (set_null id_name named_builder
        ≡ found_at
            (find_index named_schema.column_name_to_index id_name)
            (λ i. set_null_at i named_builder))
set_named_lem_example =
    set_named_lem named_builder integer (field_integer 7) id_name named_schema-IsNumbered one_value

-- An integer, a string, and bytes that may be null.
abbrev mixed_schema : Schema
mixed_schema = record {
  columns =
      column_definition id_name integer false 0
      ∷ column_definition id_name varchar false 20
      ∷ column_definition id_name blob true 0
      ∷ [];
  is_finalized = true;
  all_fixed = false;
  tuple_size = 5;
  null_bitmap_size = 1;
  nullable_count = 1;
  column_name_to_index = [];
}

abbrev mixed_values : List FieldValue
mixed_values = field_integer 300 ∷ field_varchar id_name ∷ field_null blob ∷ []

mixed_values-HoldsFields : HoldsFields mixed_schema.columns mixed_values
unfolding HoldsScalar HoldsData column_definition get_fixed_size
mixed_values-HoldsFields = (
  inr (300, refl, omega arith),
  (inr (id_name, refl, omega arith, (omega arith, (omega arith, tt))), (inl refl, tt)),
)

mixed_room :
    calculate_header_size (variable_count mixed_schema.columns)
      + extent mixed_schema.columns
      + 7
      + total_size mixed_schema.columns mixed_values
    ≤ 100
unfolding column_definition get_fixed_size field_varchar field_null
mixed_room = omega (arith, calculate_header_size_lem 2)

deserialize_variable_length-serialize_variable_length_example :
    SerializedFields mixed_schema mixed_values (λ x. 7) 100
unfolding column_definition
deserialize_variable_length-serialize_variable_length_example =
    deserialize_variable_length-serialize_variable_length mixed_schema mixed_values (λ x. 7) 100
      refl (omega arith) mixed_values-HoldsFields mixed_room (omega arith)

serialize_access_variable_example :
    (buffer : Memory) × (size : ℕ) × (start : TupleAccessor) × (serialize_variable_length
        mixed_schema mixed_values
        (λ x. 7)
        100
      ≡ ok (buffer, size))
    × (size ≤ 100)
    × (tuple_accessor mixed_schema buffer 100 ≡ gives start)
    × Shows mixed_values 1 (after_calls (string_call 1 ∷ []) start)
unfolding column_definition
serialize_access_variable_example =
    serialize_access_variable mixed_schema mixed_values (λ x. 7) 100 (string_call 1 ∷ []) 1 refl
      refl (omega arith) mixed_values-HoldsFields mixed_room (omega arith)
