-- ===== src/Tuple/Accessor/Stateless.antt =====
-- The methods of an accessor that has the values of the tuple from the start, and no state: what the
-- methods with the cache refine.
use storage_prototype.Common.{ℕ, Bool}
use storage_prototype.Schema.{DataType, Name, ColumnDefinition, get_column}
use storage_prototype.Tuple.Field.{FieldValue, Read, get_string}
use storage_prototype.Tuple.Header.{is_field_null}
use storage_prototype.Tuple.Serializer.{uint16}
use storage_prototype.Tuple.Accessor.{
  TupleAccessor, no_index, failed_assertion, Access, ◌>>=◌, look, present, read_result, of_type,
  is_string, column_at_index, validate_field_index, header_null, is_null_at, cached_value, get_at,
  get_string_at, get_field_value_at,
}
use storage_prototype.Tuple.Accessor.Cache.{
  IsCached, Matches, View, Refines, and_then, look-Refines, bind-Refines, value_in,
  cached_value-Refines,
}

abbrev pub column_of : ℕ → View → Access ColumnDefinition
column_of i v = present no_index (get_column v.schema i)

abbrev pub null_of : ℕ → View → Access Bool
null_of i v =
    and_then (column_of i v) (λ col. present failed_assertion (is_field_null v.header (uint16 i)))

abbrev pub field_of : ℕ → View → Access FieldValue
field_of i v = and_then (column_of i v) (λ col. value_in v.contents i)

abbrev pub typed_of : {A : Type 0} → DataType → (FieldValue → Read A) → ℕ → View → Access A
typed_of expected get i v =
    and_then (and_then (column_of i v) (of_type expected))
      (λ ok_type. and_then (value_in v.contents i) (λ x. read_result (get x)))

abbrev pub string_in : ℕ → View → Access Name
string_in i v = and_then (value_in v.contents i) (λ x. read_result (get_string x))

abbrev pub string_of : ℕ → View → Access Name
string_of i v =
    and_then (column_of i v) (λ col. and_then (is_string col) (λ ok_type. string_in i v))

column_at_index-Refines : (i : ℕ) → Refines (column_at_index i) (column_of i)
unfolding column_at_index
column_at_index-Refines i = look-Refines (column_of i)

validate_field_index-Refines :
    (i : ℕ) (expected : DataType)
    → Refines (validate_field_index i expected) (λ v. and_then (column_of i v) (of_type expected))
unfolding validate_field_index
validate_field_index-Refines i expected =
    bind-Refines (column_at_index i) (column_of i) _ (λ col v. of_type expected col)
      (column_at_index-Refines i) (λ col. look-Refines (λ v. of_type expected col))

value-Refines :
    {A : Type 0} (get : FieldValue → Read A) (i : ℕ)
    → Refines
        (cached_value i >>= (λ v. look (λ a. read_result (get v))))
        (λ v. and_then (value_in v.contents i) (λ x. read_result (get x)))
value-Refines get i =
    bind-Refines (cached_value i) (λ v. value_in v.contents i) _ (λ x v. read_result (get x))
      (cached_value-Refines i) (λ x. look-Refines (λ v. read_result (get x)))

-- The methods by index.
is_null_at-Refines : (i : ℕ) → Refines (is_null_at i) (null_of i)
unfolding is_null_at header_null
is_null_at-Refines i =
    bind-Refines (column_at_index i) (column_of i) _
      (λ col v. present failed_assertion (is_field_null v.header (uint16 i)))
      (column_at_index-Refines i)
      (λ col. look-Refines (λ v. present failed_assertion (is_field_null v.header (uint16 i))))

get_at-Refines :
    {A : Type 0} (expected : DataType) (get : FieldValue → Read A) (i : ℕ)
    → Refines (get_at expected get i) (typed_of expected get i)
unfolding get_at
get_at-Refines expected get i =
    bind-Refines (validate_field_index i expected)
      (λ v. and_then (column_of i v) (of_type expected)) _
      (λ u v. and_then (value_in v.contents i) (λ x. read_result (get x)))
      (validate_field_index-Refines i expected) (λ u. value-Refines get i)

get_string_at-Refines : (i : ℕ) → Refines (get_string_at i) (string_of i)
unfolding get_string_at
get_string_at-Refines i =
    bind-Refines (column_at_index i) (column_of i) _
      (λ col v. and_then (is_string col) (λ u. string_in i v)) (column_at_index-Refines i)
      (λ col.
        bind-Refines (look (λ a. is_string col)) (λ v. is_string col) _ (λ u v. string_in i v)
          (look-Refines (λ v. is_string col)) (λ u. value-Refines get_string i))

get_field_value_at-Refines : (i : ℕ) → Refines (get_field_value_at i) (field_of i)
unfolding get_field_value_at
get_field_value_at-Refines i =
    bind-Refines (column_at_index i) (column_of i) _ (λ col v. value_in v.contents i)
      (column_at_index-Refines i) (λ col. cached_value-Refines i)

-- An accessor whose cache is empty or holds the values of its buffer returns for every method by index
-- what the stateless method returns for its schema, its null bits and its buffer, leaves these as
-- they are, and its cache stays empty or right: the first read and every later read return the same.
pub accessor_lem :
    {A : Type 0} (expected : DataType) (get : FieldValue → Read A) (i : ℕ) (a : TupleAccessor)
    → IsCached a
    → Matches (is_null_at i) (null_of i) a
      × Matches (get_at expected get i) (typed_of expected get i) a
      × Matches (get_string_at i) (string_of i) a
      × Matches (get_field_value_at i) (field_of i) a
accessor_lem expected get i a cached = (
  is_null_at-Refines i a cached,
  get_at-Refines expected get i a cached,
  get_string_at-Refines i a cached,
  get_field_value_at-Refines i a cached,
)
