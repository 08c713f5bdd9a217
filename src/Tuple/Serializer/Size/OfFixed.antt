-- ===== src/Tuple/Serializer/Size/OfFixed.antt =====
-- `CalculateSerializedSize` for columns of fixed length.
use storage_prototype.Common.{
  ℕ, ◌+◌, ◌^◌, ◌≤◌, ◌≡◌, ◌∙◌, refl, arith, ap, Bool, true, both_true, choose_true, if◌then◌else◌,
  List, [], ◌∷◌,
}
use storage_prototype.Schema.{ColumnDefinition, Schema, align_offset, is_fixed_length}
use storage_prototype.Schema.Layout.{extent, every_fixed}
use storage_prototype.Tuple.Field.{FieldValue}
use storage_prototype.Tuple.Header.{calculate_header_size}
use storage_prototype.Tuple.Header.Image.{small_header}
use storage_prototype.Tuple.Serializer.{ok, ◌>>◌, require, uint16, size64, not_finalized}
use storage_prototype.Tuple.Serializer.Size.{count_variable, add_sizes, calculate_serialized_size}
use storage_prototype.Tuple.Serializer.Columns.{end_of, extent_near}

pub count_variable_fixed :
    (cols : List ColumnDefinition) (n : ℕ) → every_fixed cols ≡ true → count_variable cols n ≡ n
unfolding count_variable
count_variable_fixed [] n h = refl
count_variable_fixed (c ∷ cs) n h =
    let (fixed, rest) = both_true (is_fixed_length c) (every_fixed cs) h in
    ap (λ (b : Bool). count_variable cs (if b then n else uint16 (n + 1))) fixed
    ∙ count_variable_fixed cs n rest

next :
    (c : ColumnDefinition) (cs : List ColumnDefinition) (o : ℕ)
    → o + extent (c ∷ cs) + 15 ≤ 2 ^ 64
    → size64 (align_offset o c.data_type + c.fixed_size) ≡ align_offset o c.data_type + c.fixed_size
next c cs o h = omega (arith, extent_near o c cs h)

-- For columns of fixed length, the sizes add up to where the layout ends.
add_sizes_fixed :
    (cols : List ColumnDefinition) (values : List FieldValue) (o : ℕ)
    → every_fixed cols ≡ true
    → o + extent cols + 15 ≤ 2 ^ 64
    → add_sizes cols values o ≡ ok (end_of o cols)
unfolding add_sizes
add_sizes_fixed [] values o h no_wrap = refl
add_sizes_fixed (c ∷ cs) [] o h no_wrap =
    let (fixed, rest) = both_true (is_fixed_length c) (every_fixed cs) h in
    choose_true _ _ fixed
    ∙ ap (add_sizes cs []) (next c cs o no_wrap)
    ∙ add_sizes_fixed cs [] (align_offset o c.data_type + c.fixed_size) rest
        (omega (arith, extent_near o c cs no_wrap))
add_sizes_fixed (c ∷ cs) (v ∷ values) o h no_wrap =
    let (fixed, rest) = both_true (is_fixed_length c) (every_fixed cs) h in
    ap (add_sizes cs values) (choose_true _ _ fixed ∙ next c cs o no_wrap)
    ∙ add_sizes_fixed cs values (align_offset o c.data_type + c.fixed_size) rest
        (omega (arith, extent_near o c cs no_wrap))

pub calculate_fixed :
    (schema : Schema) (values : List FieldValue)
    → schema.is_finalized ≡ true
    → every_fixed schema.columns ≡ true
    → extent schema.columns + 23 ≤ 2 ^ 64
    → calculate_serialized_size schema values ≡ ok (end_of 8 schema.columns)
unfolding calculate_serialized_size
calculate_fixed schema values final fixed no_wrap =
    ap
      (λ (b : Bool).
        require b not_finalized
        >> add_sizes schema.columns values
            (calculate_header_size (count_variable schema.columns 0)))
      final
    ∙ ap (λ (n : ℕ). add_sizes schema.columns values (calculate_header_size n))
        (count_variable_fixed schema.columns 0 fixed)
    ∙ ap (add_sizes schema.columns values) small_header
    ∙ add_sizes_fixed schema.columns values 8 fixed (omega arith)
