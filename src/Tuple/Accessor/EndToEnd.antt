-- ===== src/Tuple/Accessor/EndToEnd.antt =====
-- What the accessor reads of what `SerializeFixedLength` and `SerializeVariableLength` wrote.
use storage_prototype.Common.{
  ℕ, ◌+◌, ◌^◌, ◌≤◌, ◌<◌, ◌≡◌, ◌∙◌, refl, arith, ap, ap₂, sym, Bool, true, false, choose_true,
  choose_false, Option, some, none, Option-cases, inl, inr, List, [], ◌∷◌, zero, suc, length,
  get_elem?,
}
use storage_prototype.Memory.{Memory}
use storage_prototype.Schema.{char, ColumnDefinition, Schema, get_column, get_column_count}
use storage_prototype.Schema.Layout.{extent, every_fixed}
use storage_prototype.Tuple.Field.{FieldValue, get_string}
use storage_prototype.Tuple.Header.{
  TupleHeader, is_field_null, calculate_header_size, deserialize_from,
}
use storage_prototype.Tuple.Serializer.{Result, ok, uint16}
use storage_prototype.Tuple.Serializer.Columns.{NullsOf}
use storage_prototype.Tuple.Serializer.Size.{count_variable, calculate_serialized_size}
use storage_prototype.Tuple.Serializer.Size.OfFixed.{count_variable_fixed}
use storage_prototype.Tuple.Serializer.Fixed.{serialize_fixed_length, deserialize_fixed_length}
use storage_prototype.Tuple.Serializer.Fixed.Loops.{HoldsAll}
use storage_prototype.Tuple.Serializer.Fixed.RoundTrip.{
  HoldsAll-length, deserialize_fixed_length-serialize_fixed_length,
}
use storage_prototype.Tuple.Serializer.Variable.{
  serialize_variable_length, deserialize_variable_length,
}
use storage_prototype.Tuple.Serializer.Variable.First.{HoldsFields}
use storage_prototype.Tuple.Serializer.Variable.SecondLoop.{variable_count, total_size}
use storage_prototype.Tuple.Serializer.Variable.Reading.{HoldsFields-length}
use storage_prototype.Tuple.Serializer.Variable.RoundTrip.{
  deserialize_variable_length-serialize_variable_length,
}
use storage_prototype.Tuple.Accessor.{
  gives, TupleAccessor, tuple_accessor, new_accessor, from_header, deserialized, present, no_index,
  failed_assertion, is_null_at, get_field_value_at,
}
use storage_prototype.Tuple.Accessor.Cache.{and_then, value_in}
use storage_prototype.Tuple.Accessor.Calls.{Call, after_calls, SameTuple, after_calls-SameTuple}
use storage_prototype.Tuple.Accessor.Stateless.{field_of, null_of, accessor_lem}

abbrev pub map_null : Option FieldValue → Option Bool
map_null (some v) = some v.is_null
map_null none = none

-- What the accessor returns for the index `i` of a tuple with the values: the value there, or the error
-- of an index out of bounds, and whether the value is null.
abbrev pub Shows : List FieldValue → ℕ → TupleAccessor → Type 0
Shows values i a =
    ((get_field_value_at i a).0 ≡ present no_index (get_elem? values i))
    × ((is_null_at i a).0 ≡ present no_index (map_null (get_elem? values i)))

NullsOf-at :
    (start i : ℕ) (values : List FieldValue) (h : TupleHeader) (v : FieldValue)
    → NullsOf start values h
    → get_elem? values i ≡ some v
    → is_field_null h (start + i) ≡ some v.is_null
NullsOf-at start i [] h v w at = absurd (cc (at))
NullsOf-at start zero (u ∷ vs) h v (w, ws) at =
    ap (is_field_null h) (omega arith)
    ∙ w
    ∙ ap (λ (o : Option FieldValue). elim o [ some x ↦ some x.is_null | none ↦ none ]) at
NullsOf-at start (suc i) (u ∷ vs) h v (w, ws) at =
    ap (is_field_null h) (omega arith) ∙ NullsOf-at (start + 1) i vs h v ws at

-- A value has a column.
column_of_value :
    (i : ℕ) (cols : List ColumnDefinition) (values : List FieldValue) (v : FieldValue)
    → length values ≡ length cols
    → get_elem? values i ≡ some v
    → (c : ColumnDefinition) × (get_elem? cols i ≡ some c) × (i < length cols)
column_of_value i cols [] v w at = absurd (cc (at))
column_of_value i [] (u ∷ vs) v w at = absurd (omega (arith, w))
column_of_value zero (c ∷ cs) (u ∷ vs) v w at = (c, refl, omega arith)
column_of_value (suc i) (c ∷ cs) (u ∷ vs) v w at =
    let (d, found, p) = column_of_value i cs vs v (omega (arith, w)) at in (d, found, omega arith)

no_column_of_value :
    (i : ℕ) (cols : List ColumnDefinition) (values : List FieldValue)
    → length values ≡ length cols
    → get_elem? values i ≡ none
    → get_elem? cols i ≡ none
no_column_of_value i [] values w at = refl
no_column_of_value i (c ∷ cs) [] w at = absurd (omega (arith, w))
no_column_of_value zero (c ∷ cs) (u ∷ vs) w at = absurd (cc (at))
no_column_of_value (suc i) (c ∷ cs) (u ∷ vs) w at = no_column_of_value i cs vs (omega (arith, w)) at

module _ (schema : Schema) (values : List FieldValue) (buffer : Memory) (buffer_size : ℕ)
    (header : TupleHeader) (final : schema.is_finalized ≡ true) (few : length schema.columns ≤ 64)
    (long : length values ≡ length schema.columns)
    (contents : deserialized (new_accessor schema buffer buffer_size header) ≡ ok values)
    (header_reads : deserialize_from buffer
        (uint16 (get_column_count schema))
        (count_variable schema.columns 0)
      ≡ some header)
    (marked : NullsOf 0 values header) where
  abbrev first_accessor : TupleAccessor
  first_accessor = new_accessor schema buffer buffer_size header

  made : tuple_accessor schema buffer buffer_size ≡ gives first_accessor
  unfolding tuple_accessor
  made = choose_true _ _ final ∙ ap (from_header schema buffer buffer_size) header_reads

  module _ (a : TupleAccessor) (same : SameTuple first_accessor a) (i : ℕ) where
    -- What the column at the index makes of the two methods.
    by_column :
        (o : Option ColumnDefinition)
        → get_elem? schema.columns i ≡ o
        → ((get_field_value_at i a).0
            ≡ and_then (present no_index o) (λ col. value_in (ok values) i))
          × ((is_null_at i a).0
              ≡ and_then
                  (present no_index o)
                  (λ col. present failed_assertion (is_field_null header (uint16 i))))
    unfolding get_column
    by_column o found =
        let (null, typed, string, field) = accessor_lem char get_string i a same.1 in
        (
          field.0 ∙ ap (field_of i) same.0 ∙ ap2_column found contents,
          null.0
              ∙ ap (null_of i) same.0
              ∙ ap
                  (λ (q : Option ColumnDefinition).
                    and_then (present no_index q)
                      (λ col. present failed_assertion (is_field_null header (uint16 i))))
                  found,
        )
      where
        ap2_column :
            {q : Option ColumnDefinition} {r : Result (List FieldValue)}
            → get_elem? schema.columns i ≡ q
            → deserialized first_accessor ≡ r
            → and_then
                (present no_index (get_elem? schema.columns i))
                (λ col. value_in (deserialized first_accessor) i)
              ≡ and_then (present no_index q) (λ col. value_in r i)
        ap2_column e f =
            ap₂
              (λ (q : Option ColumnDefinition) (r : Result (List FieldValue)).
                and_then (present no_index q) (λ col. value_in r i))
              e f

    shown : Shows values i a
    shown = elim (Option-cases (get_elem? values i)) [
      | inl absent ↦
          let (value, null) =
            by_column none (no_column_of_value i schema.columns values long absent) in
          (
            value ∙ sym (ap (present no_index) absent),
            null ∙ sym (ap (λ (o : Option FieldValue). present no_index (map_null o)) absent),
          )
      | inr (v, at) ↦
          let (c, found, p) = column_of_value i schema.columns values v long at in
          let (value, null) = by_column (some c) found in
          (
            value,
            null
                ∙ ap (λ (j : ℕ). present failed_assertion (is_field_null header j))
                    (omega (arith, p, few))
                ∙ ap (present failed_assertion) (NullsOf-at 0 i values header v marked at)
                ∙ sym (ap (λ (o : Option FieldValue). present no_index (map_null o)) at),
          )
    ]

  -- The accessor that the constructor gives, and what it returns after any reads.
  starts :
      (calls : List Call) (i : ℕ)
      → (start : TupleAccessor) × (tuple_accessor schema buffer buffer_size ≡ gives start)
        × Shows values i (after_calls calls start)
  starts calls i = (
    first_accessor,
    made,
    shown (after_calls calls first_accessor)
        (after_calls-SameTuple calls first_accessor (λ h. absurd (cc (h)))) i,
  )

fixed_contents :
    (a : TupleAccessor) (values : List FieldValue)
    → a.schema.all_fixed ≡ true
    → deserialize_fixed_length a.schema a.buffer a.buffer_size ≡ ok values
    → deserialized a ≡ ok values
unfolding deserialized
fixed_contents a values fixed reads = choose_true _ _ fixed ∙ reads

variable_contents :
    (a : TupleAccessor) (values : List FieldValue)
    → a.schema.all_fixed ≡ false
    → deserialize_variable_length a.schema a.buffer a.buffer_size ≡ ok values
    → deserialized a ≡ ok values
unfolding deserialized
variable_contents a values variable reads = choose_false _ _ variable ∙ reads

-- On a finalized schema of at most 64 columns, all of fixed length and with sizes that do not overflow,
-- values that the columns hold are serialized into a buffer of the size that `CalculateSerializedSize`
-- returns or more, and the buffer gives an accessor. After any sequence of reads through it, the
-- accessor returns for an index the value that was serialized, that it is null exactly if it is, or
-- the error of an index out of bounds if there is none.
pub serialize_access :
    (schema : Schema) (values : List FieldValue) (before : Memory) (buffer_size size : ℕ)
    (calls : List Call) (i : ℕ)
    → schema.is_finalized ≡ true
    → schema.all_fixed ≡ true
    → every_fixed schema.columns ≡ true
    → length schema.columns ≤ 64
    → HoldsAll schema.columns values
    → extent schema.columns + 23 ≤ 2 ^ 64
    → calculate_serialized_size schema values ≡ ok size
    → size ≤ buffer_size
    → (buffer : Memory) × (start : TupleAccessor) × (serialize_fixed_length schema values before
          buffer_size
        ≡ ok (buffer, size))
      × (tuple_accessor schema buffer buffer_size ≡ gives start)
      × Shows values i (after_calls calls start)
serialize_access schema values before buffer_size size calls i final fixed each few holds no_wrap
      sized room =
    let s =
      deserialize_fixed_length-serialize_fixed_length schema values before buffer_size size final
        fixed each few holds no_wrap sized room in
    let (start, given, shows) =
      starts schema values s.after buffer_size s.header final few
        (HoldsAll-length schema.columns values holds)
        (fixed_contents (new_accessor schema s.after buffer_size s.header) values fixed s.reads)
        (ap (deserialize_from s.after (uint16 (get_column_count schema)))
            (count_variable_fixed schema.columns 0 each)
          ∙ s.header_reads)
        s.marked calls i in
    (s.after, start, s.writes, given, shows)

-- On a finalized schema of at most 64 columns, not all of fixed length, values that the columns hold are
-- serialized by `SerializeVariableLength` into a buffer of fewer than 2 ^ 16 bytes that has room for the
-- header, the columns of fixed length with seven bytes of padding for each column, seven bytes more,
-- and the length and the data of each value, and the buffer gives an accessor. After any sequence of
-- reads through it, the accessor returns for an index the value that was serialized, that it is null
-- exactly if it is, or the error of an index out of bounds if there is none.
pub serialize_access_variable :
    (schema : Schema) (values : List FieldValue) (before : Memory) (buffer_size : ℕ)
    (calls : List Call) (i : ℕ)
    → schema.is_finalized ≡ true
    → schema.all_fixed ≡ false
    → length schema.columns ≤ 64
    → HoldsFields schema.columns values
    → calculate_header_size (variable_count schema.columns)
        + extent schema.columns
        + 7
        + total_size schema.columns values
      ≤ buffer_size
    → buffer_size < 2 ^ 16
    → (buffer : Memory) × (size : ℕ) × (start : TupleAccessor) × (serialize_variable_length schema
          values before buffer_size
        ≡ ok (buffer, size))
      × (size ≤ buffer_size)
      × (tuple_accessor schema buffer buffer_size ≡ gives start)
      × Shows values i (after_calls calls start)
serialize_access_variable schema values before buffer_size calls i final variable few holds room
      limit =
    let s =
      deserialize_variable_length-serialize_variable_length schema values before buffer_size final
        few holds room limit in
    let (start, given, shows) =
      starts schema values s.after buffer_size s.header final few
        (HoldsFields-length schema.columns values holds)
        (variable_contents (new_accessor schema s.after buffer_size s.header) values variable
          s.reads)
        s.header_reads s.marked calls i in
    (s.after, s.size, start, s.writes, s.size_le, given, shows)
