-- ===== src/Tuple/Serializer/Fixed/RoundTrip.antt =====
-- `SerializeFixedLength` and then `DeserializeFixedLength`.
use storage_prototype.Common.{
  ℕ, suc, ◌+◌, ◌^◌, ◌≤◌, ◌<◌, ◌≡◌, ◌∙◌, inr, refl, arith, ap, sym, subst, true, false, ◌==◌,
  ==_self, le→leb, Option, some, List, [], ◌∷◌, length,
}
use storage_prototype.Memory.{Memory}
use storage_prototype.Memory.Fill.{memset_inside, memset_apart}
use storage_prototype.Schema.{ColumnDefinition, Schema, get_column_count}
use storage_prototype.Schema.Layout.{extent, every_fixed}
use storage_prototype.Tuple.Field.{FieldValue}
use storage_prototype.Tuple.Header.{
  TupleHeader, tuple_header, is_field_null, get_header_size, serialize_to, deserialize_from,
}
use storage_prototype.Tuple.Header.Nulls.{IsHeader, tuple_header_fields}
use storage_prototype.Tuple.Header.Image.{
  EachFits, deserialize_from-serialize_to, header_back, small_header, get_header_size_at,
}
use storage_prototype.Tuple.Serializer.{
  Result, ok, err, ◌>>=◌, require-true, asserted, uint16, Progress,
}
use storage_prototype.Tuple.Serializer.Size.{calculate_serialized_size}
use storage_prototype.Tuple.Serializer.Size.OfFixed.{calculate_fixed}
use storage_prototype.Tuple.Serializer.Columns.{NullsOf, end_of, end_of-le}
use storage_prototype.Tuple.Serializer.Fixed.{
  read_columns, started, write_with_header, serialize_fixed_length, read_with_header,
  deserialize_fixed_length,
}
use storage_prototype.Tuple.Serializer.Fixed.Loops.{HoldsAll, Columns, for_columns_lem}

pub HoldsAll-length :
    (cols : List ColumnDefinition) (values : List FieldValue)
    → HoldsAll cols values
    → length values ≡ length cols
HoldsAll-length [] [] h = refl
HoldsAll-length [] (v ∷ vs) h = elim h [ ]
HoldsAll-length (c ∷ cs) [] h = elim h [ ]
HoldsAll-length (c ∷ cs) (v ∷ vs) (h, hs) = ap suc (HoldsAll-length cs vs hs)

-- A buffer, made from the bytes `before`, that holds the values: what the calls return of it.
pub record Serialized (schema : Schema) (values : List FieldValue) (before : Memory)
    (buffer_size size : ℕ) : Type 0 where
  pub after : Memory
  pub writes : serialize_fixed_length schema values before buffer_size ≡ ok (after, size)
  pub reads : deserialize_fixed_length schema after buffer_size ≡ ok values
  pub beyond : (x : ℕ) → buffer_size ≤ x → after x ≡ before x
  pub header : TupleHeader
  pub header_reads : deserialize_from after (uint16 (get_column_count schema)) 0 ≡ some header
  pub marked : NullsOf 0 values header

module _ (schema : Schema) (values : List FieldValue) (before : Memory) (buffer_size : ℕ)
    (final : schema.is_finalized ≡ true) (fixed : schema.all_fixed ≡ true)
    (few : length schema.columns ≤ 64) (holds : HoldsAll schema.columns values)
    (no_wrap : extent schema.columns + 23 ≤ 2 ^ 64)
    (room : end_of 8 schema.columns ≤ buffer_size) where
  abbrev count : ℕ
  count = length schema.columns

  count_fits : uint16 count ≡ count
  count_fits = omega (arith, few)

  -- The calls with a new header.
  module _ (h : TupleHeader) (made : tuple_header count 0 ≡ some h) (is_header : IsHeader h)
      (unset : (j : ℕ) → j < count → is_field_null h j ≡ some false)
      (fields : h.field_count ≡ count) (no_var : h.var_field_count ≡ 0)
      (no_offsets : h.var_offsets ≡ []) where
    eight : get_header_size h ≡ 8
    eight = get_header_size_at h 0 no_var ∙ small_header

    long : 8 ≤ buffer_size
    long = omega (arith, room, end_of-le 8 schema.columns (omega (arith, no_wrap)))

    written : (p' : Progress) × Columns 0 schema.columns values (started before buffer_size h) p'
    written =
        for_columns_lem 0 schema.columns values buffer_size (started before buffer_size h) holds
          (record {
            is_header = is_header;
            in_header = omega (arith, fields);
            unset = λ j a b. unset j (omega (arith, b));
            clear = λ x a b. memset_inside before 0 buffer_size x b;
          })
          (omega (arith, eight, no_wrap))
          (subst (λ (o : ℕ). end_of o schema.columns ≤ buffer_size) (sym eight) room)

    module _ (p' : Progress)
        (w : Columns 0 schema.columns values (started before buffer_size h) p') where
      abbrev image : Memory
      image = serialize_to p'.header p'.buffer

      no_offset_fits : EachFits p'.header.var_offsets
      no_offset_fits = subst EachFits (sym (w.written.same_offsets ∙ no_offsets)) tt

      still_no_var : p'.header.var_field_count ≡ 0
      still_no_var = w.written.same_var_count ∙ no_var

      still_eight : get_header_size p'.header ≡ 8
      still_eight = get_header_size_at p'.header 0 still_no_var ∙ small_header

      at_end : end_of (get_header_size h) schema.columns ≤ buffer_size
      at_end = subst (λ (o : ℕ). end_of o schema.columns ≤ buffer_size) (sym eight) room

      image_beyond : (x : ℕ) → 8 ≤ x → image x ≡ p'.buffer x
      image_beyond x g =
          (deserialize_from-serialize_to p'.header p'.buffer w.written.is_header no_offset_fits).1 x
            (subst (λ (n : ℕ). n ≤ x) (sym still_eight) g)

      writes :
          serialize_fixed_length schema values before buffer_size
          ≡ ok (image, end_of 8 schema.columns)
      unfolding serialize_fixed_length write_with_header get_column_count
      writes =
          require-true _ _ final
          ∙ require-true _ _ fixed
          ∙ require-true _ _ (
              ap (λ (n : ℕ). n == count) (HoldsAll-length schema.columns values holds)
              ∙ ==_self count)
          ∙ ap
              (λ (o : Option TupleHeader).
                asserted o >>= write_with_header schema values before buffer_size)
              (ap (λ (n : ℕ). tuple_header n 0) count_fits ∙ made)
          ∙ require-true _ _ (le→leb _ _ (omega (arith, eight, long)))
          ∙ ap
              (λ (r : Result Progress).
                r >>= (λ p. ok (serialize_to p.header p.buffer, p.current_offset)))
              w.returned
          ∙ ap (λ (n : ℕ). ok (image, n)) (w.ends ∙ ap (λ (o : ℕ). end_of o schema.columns) eight)

      header_reads : deserialize_from image (uint16 (get_column_count schema)) 0 ≡ some p'.header
      unfolding get_column_count
      header_reads =
          ap (λ (n : ℕ). deserialize_from image n 0) count_fits
          ∙ header_back p'.header p'.buffer count 0 w.written.is_header no_offset_fits
              (w.written.same_count ∙ fields) still_no_var

      reads : deserialize_fixed_length schema image buffer_size ≡ ok values
      unfolding deserialize_fixed_length read_with_header get_column_count
      reads =
          require-true _ _ final
          ∙ require-true _ _ fixed
          ∙ ap
              (λ (o : Option TupleHeader). asserted o >>= read_with_header schema image buffer_size)
              header_reads
          ∙ require-true _ _ (le→leb _ _ (omega (arith, still_eight, long)))
          ∙ ap (read_columns 0 schema.columns p'.header image) (still_eight ∙ sym eight)
          ∙ w.reads p'.header image (λ x g b. image_beyond x (omega (arith, eight))) (λ j g b. refl)

      beyond : (x : ℕ) → buffer_size ≤ x → image x ≡ before x
      beyond x g =
          image_beyond x (omega (arith, long))
          ∙ w.written.outside x (inr (omega (arith, w.ends, at_end)))
          ∙ memset_apart before 0 buffer_size x g

      pub Serialized-image : Serialized schema values before buffer_size (end_of 8 schema.columns)
      Serialized-image = record {
        after = image;
        writes = writes;
        reads = reads;
        beyond = beyond;
        header = p'.header;
        header_reads = header_reads;
        marked = w.marked;
      }

  Serialized-end_of : Serialized schema values before buffer_size (end_of 8 schema.columns)
  Serialized-end_of =
      let (h, made, is_header, unset, fields, no_var, no_offsets) =
        tuple_header_fields count 0 few in
      let (p', w) = written h made is_header unset fields no_var no_offsets in
      Serialized-image h made is_header unset fields no_var no_offsets p' w

-- On a finalized schema of at most 64 columns, all of fixed length and with sizes that do not overflow,
-- `SerializeFixedLength` into a buffer of at least the size that `CalculateSerializedSize` returns
-- returns that size and changes no byte past the buffer, and `DeserializeFixedLength` then returns
-- the values: nulls, numbers, Booleans, and strings without null bytes no longer than their column.
pub deserialize_fixed_length-serialize_fixed_length :
    (schema : Schema) (values : List FieldValue) (before : Memory) (buffer_size size : ℕ)
    → schema.is_finalized ≡ true
    → schema.all_fixed ≡ true
    → every_fixed schema.columns ≡ true
    → length schema.columns ≤ 64
    → HoldsAll schema.columns values
    → extent schema.columns + 23 ≤ 2 ^ 64
    → calculate_serialized_size schema values ≡ ok size
    → size ≤ buffer_size
    → Serialized schema values before buffer_size size
deserialize_fixed_length-serialize_fixed_length schema values before buffer_size size final fixed
      each few holds no_wrap sized room =
    subst (Serialized schema values before buffer_size) same (
      Serialized-end_of schema values before buffer_size final fixed few holds no_wrap
        (subst (λ (n : ℕ). n ≤ buffer_size) (sym same) room))
  where
    same : end_of 8 schema.columns ≡ size
    same =
        ap (λ (r : Result ℕ). elim r [ ok n ↦ n | err e ↦ 0 ])
          (sym (calculate_fixed schema values final each no_wrap) ∙ sized)
