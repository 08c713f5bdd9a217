-- ===== src/Tuple/Serializer/Variable/RoundTrip.antt =====
-- `SerializeVariableLength` and then `DeserializeVariableLength`.
use storage_prototype.Common.{
  ℕ, ◌+◌, ◌^◌, ◌≤◌, ◌<◌, ◌≡◌, ◌∙◌, inl, inr, refl, arith, ap, ap₂, sym, subst, true, false, ◌==◌,
  ==_self, le→leb, Option, some, List, length, replicate,
}
use storage_prototype.Memory.{Memory, memset}
use storage_prototype.Memory.Fill.{memset_inside, memset_apart}
use storage_prototype.Schema.{Schema, get_column_count}
use storage_prototype.Schema.Layout.{extent}
use storage_prototype.Tuple.Field.{FieldValue}
use storage_prototype.Tuple.Header.{
  TupleHeader, tuple_header, is_field_null, get_header_size, calculate_header_size, serialize_to,
  deserialize_from,
}
use storage_prototype.Tuple.Header.Nulls.{IsHeader, tuple_header_fields}
use storage_prototype.Tuple.Header.Image.{
  EachFits, EachFits-replicate, deserialize_from-serialize_to, header_back, get_header_size_at,
}
use storage_prototype.Tuple.Serializer.{
  Result, ok, ◌>>=◌, require-true, asserted, uint16, Progress, for_columns,
}
use storage_prototype.Tuple.Serializer.Columns.{NullsOf}
use storage_prototype.Tuple.Serializer.Size.{count_variable}
use storage_prototype.Tuple.Serializer.Variable.{
  write_if_variable, aligned, write_both, serialize_variable_length, read_fields, read_both,
  deserialize_variable_length,
}
use storage_prototype.Tuple.Serializer.Variable.Reading.{
  read_fields_lem, HoldsFields-length, variable_count-le, count_variable_lem,
}
use storage_prototype.Tuple.Serializer.Variable.First.{HoldsFields, FirstColumns, first_columns}
use storage_prototype.Tuple.Serializer.Variable.SecondLoop.{
  variable_count, total_size, SecondColumns, second_columns,
}

-- A buffer, made from the bytes `before`, that holds the values: what the calls return of it.
pub record SerializedFields (schema : Schema) (values : List FieldValue) (before : Memory)
    (buffer_size : ℕ) : Type 0 where
  pub after : Memory
  pub size : ℕ
  pub size_le : size ≤ buffer_size
  pub writes : serialize_variable_length schema values before buffer_size ≡ ok (after, size)
  pub reads : deserialize_variable_length schema after buffer_size ≡ ok values
  pub beyond : (x : ℕ) → buffer_size ≤ x → after x ≡ before x
  pub header : TupleHeader
  pub header_reads :
      deserialize_from after (uint16 (get_column_count schema)) (count_variable schema.columns 0)
      ≡ some header
  pub marked : NullsOf 0 values header

module _ (schema : Schema) (values : List FieldValue) (before : Memory) (buffer_size : ℕ)
    (final : schema.is_finalized ≡ true) (few : length schema.columns ≤ 64)
    (holds : HoldsFields schema.columns values)
    (room : calculate_header_size (variable_count schema.columns)
        + extent schema.columns
        + 7
        + total_size schema.columns values
      ≤ buffer_size)
    (limit : buffer_size < 2 ^ 16) where
  abbrev count : ℕ
  count = length schema.columns

  abbrev vars : ℕ
  vars = variable_count schema.columns

  count_fits : uint16 count ≡ count
  count_fits = omega (arith, few)

  vars_counted : count_variable schema.columns 0 ≡ vars
  vars_counted = count_variable_lem schema.columns 0 (omega (arith, few)) ∙ omega arith

  -- The calls with a new header.
  module _ (h : TupleHeader) (made : tuple_header count vars ≡ some h) (is_header : IsHeader h)
      (unset : (j : ℕ) → j < count → is_field_null h j ≡ some false)
      (fields : h.field_count ≡ count) (var_fields : h.var_field_count ≡ vars)
      (no_offsets : h.var_offsets ≡ replicate vars 0) where
    abbrev start : Progress
    start = record {
      buffer = memset before 0 0 buffer_size;
      header = h;
      current_offset = get_header_size h;
    }

    header_size : get_header_size h ≡ calculate_header_size vars
    header_size = get_header_size_at h vars var_fields

    first : (p : Progress) × FirstColumns 0 schema.columns values start p
    first =
        first_columns 0 schema.columns values buffer_size start holds
          (record {
            is_header = is_header;
            in_header = omega (arith, fields);
            unset = λ j a b. unset j (omega (arith, b));
            clear = λ x a b. memset_inside before 0 buffer_size x b;
          })
          (omega (arith, header_size, room, limit)) (omega (arith, header_size, room))

    module _ (p : Progress) (a : FirstColumns 0 schema.columns values start p) where
      aligned_near :
          (p.current_offset ≤ (aligned p).current_offset)
          × ((aligned p).current_offset ≤ p.current_offset + 7)
      aligned_near = (
        omega (arith, a.near, header_size, room, limit),
        omega (arith, a.near, header_size, room, limit),
      )

      second : SecondColumns buffer_size 0 0 schema.columns values (aligned p)
      second =
          second_columns buffer_size 0 0 schema.columns values (aligned p) holds a.written.is_header
            (subst EachFits (sym (a.written.same_offsets ∙ no_offsets))
              (EachFits-replicate vars 0 (omega arith)))
            (omega (arith, a.written.same_count, fields)) a.nulls
            (omega (arith, a.written.same_var_count, var_fields))
            (omega
              (arith, a.written.same_var_count, var_fields, few, variable_count-le schema.columns))
            limit (omega (arith, aligned_near, a.near, header_size, room))

      module _ (b : SecondColumns buffer_size 0 0 schema.columns values (aligned p)) where
        abbrev image : Memory
        image = serialize_to b.p'.header b.p'.buffer

        still_vars : b.p'.header.var_field_count ≡ vars
        still_vars = b.moved.same_var_count ∙ a.written.same_var_count ∙ var_fields

        still_size : get_header_size b.p'.header ≡ get_header_size h
        still_size = get_header_size_at b.p'.header vars still_vars ∙ sym header_size

        image_beyond : (x : ℕ) → get_header_size h ≤ x → image x ≡ b.p'.buffer x
        image_beyond x g =
            (deserialize_from-serialize_to b.p'.header b.p'.buffer b.moved.is_header b.moved.fits).1
              x (subst (λ (n : ℕ). n ≤ x) (sym still_size) g)

        size_fits : b.p'.current_offset ≤ buffer_size
        size_fits = omega (arith, b.near, aligned_near, a.near, header_size, room)

        long : get_header_size h ≤ buffer_size
        long = omega (arith, header_size, room)

        writes :
            serialize_variable_length schema values before buffer_size
            ≡ ok (image, b.p'.current_offset)
        unfolding serialize_variable_length write_both get_column_count
        writes =
            require-true _ _ final
            ∙ require-true _ _ (
                ap (λ (n : ℕ). n == count) (HoldsFields-length schema.columns values holds)
                ∙ ==_self count)
            ∙ ap
                (λ (o : Option TupleHeader).
                  asserted o >>= write_both schema values before buffer_size)
                (ap₂ tuple_header count_fits vars_counted ∙ made)
            ∙ require-true _ _ (le→leb _ _ long)
            ∙ ap
                (λ (r : Result Progress). r >>= (λ q.
                  for_columns (write_if_variable buffer_size) 0 schema.columns values (aligned q, 0)
                  >>= (λ last.
                      ok (serialize_to last.0.header last.0.buffer, last.0.current_offset))))
                a.returned
            ∙ ap
                (λ (r : Result (Progress × ℕ)). r >>= (λ last.
                  ok (serialize_to last.0.header last.0.buffer, last.0.current_offset)))
                b.returned

        header_reads :
            deserialize_from image
              (uint16 (get_column_count schema))
              (count_variable schema.columns 0)
            ≡ some b.p'.header
        unfolding get_column_count
        header_reads =
            ap₂ (deserialize_from image) count_fits vars_counted
            ∙ header_back b.p'.header b.p'.buffer count vars b.moved.is_header b.moved.fits
                (b.moved.same_count ∙ a.written.same_count ∙ fields) still_vars

        reads : deserialize_variable_length schema image buffer_size ≡ ok values
        unfolding deserialize_variable_length read_both get_column_count
        reads =
            require-true _ _ final
            ∙ ap (λ (o : Option TupleHeader). asserted o >>= read_both schema image buffer_size)
                header_reads
            ∙ require-true _ _ (le→leb _ _ (omega (arith, still_size, long)))
            ∙ ap (λ (o : ℕ). read_fields 0 schema.columns b.p'.header image o 0) still_size
            ∙ read_fields_lem 0 0 schema.columns values b.p'.header image (get_header_size h) holds
                (a.reads b.p'.header image
                  (λ x g l.
                    image_beyond x g ∙ b.moved.outside x (inl (omega (arith, aligned_near))))
                  b.nulls)
                (b.reads b.p'.header image
                  (λ x g l. image_beyond x (omega (arith, aligned_near, a.written.forward)))
                  (λ j g. refl) b.nulls)

        beyond : (x : ℕ) → buffer_size ≤ x → image x ≡ before x
        beyond x g =
            image_beyond x (omega (arith, long))
            ∙ b.moved.outside x (inr (omega (arith, size_fits)))
            ∙ a.written.outside x (inr (omega (arith, a.near, header_size, room)))
            ∙ memset_apart before 0 buffer_size x g

        SerializedFields-image : SerializedFields schema values before buffer_size
        SerializedFields-image = record {
          after = image;
          size = b.p'.current_offset;
          size_le = size_fits;
          writes = writes;
          reads = reads;
          beyond = beyond;
          header = b.p'.header;
          header_reads = header_reads;
          marked = b.nulls;
        }

-- On a finalized schema of at most 64 columns, and into a buffer of fewer than 2 ^ 16 bytes that has room
-- for the header, the columns of fixed length with seven bytes of padding for each column, seven bytes
-- more, and the length and the data of every value of variable length, `SerializeVariableLength`
-- returns a size within the buffer and changes no byte past it, and `DeserializeVariableLength` then
-- returns the values: nulls, numbers and Booleans in columns of fixed length, and strings and bytes
-- shorter than 2 ^ 16 in columns of variable length.
pub deserialize_variable_length-serialize_variable_length :
    (schema : Schema) (values : List FieldValue) (before : Memory) (buffer_size : ℕ)
    → schema.is_finalized ≡ true
    → length schema.columns ≤ 64
    → HoldsFields schema.columns values
    → calculate_header_size (variable_count schema.columns)
        + extent schema.columns
        + 7
        + total_size schema.columns values
      ≤ buffer_size
    → buffer_size < 2 ^ 16
    → SerializedFields schema values before buffer_size
deserialize_variable_length-serialize_variable_length schema values before buffer_size final few
      holds room limit =
    let (h, made, is_header, unset, fields, var_fields, no_offsets) =
      tuple_header_fields (length schema.columns) (variable_count schema.columns) few in
    let (p, a) =
      first schema values before buffer_size final few holds room limit h made is_header unset
        fields var_fields no_offsets in
    let b =
      second schema values before buffer_size final few holds room limit h made is_header unset
        fields var_fields no_offsets p a in
    SerializedFields-image schema values before buffer_size final few holds room limit h made
      is_header unset fields var_fields no_offsets p a b
