-- ===== src/Tuple/Serializer/Variable/Second.antt =====
-- One column in the second loop of `SerializeVariableLength`, which writes those of variable length.
use storage_prototype.Common.{
  ℕ, ◌+◌, ◌^◌, ◌≤◌, ◌<◌, ◌≡◌, ◌∙◌, inl, inr, refl, arith, ap, sym, subst, Bool, true, false, ◌&&◌,
  ◌==◌, ==_self, ne→==, Bool-cases, choose_true, choose_false, if◌then◌else◌, Option, some, List,
  [], ◌∷◌,
}
use storage_prototype.Memory.{Memory}
use storage_prototype.Schema.{ColumnDefinition, is_fixed_length}
use storage_prototype.Tuple.Field.{FieldValue, field_null}
use storage_prototype.Tuple.Header.{
  TupleHeader, set_field_null, is_field_null, set_variable_length_offset,
  get_variable_length_offset,
}
use storage_prototype.Tuple.Header.Nulls.{IsHeader, set_field_null_lem, set_field_null_same}
use storage_prototype.Tuple.Header.Image.{EachFits}
use storage_prototype.Tuple.Header.Offsets.{
  OffsetSet, set_variable_length_offset_lem, get_variable_length_offset_same,
}
use storage_prototype.Tuple.Serializer.{Result, ok, ◌>>=◌, asserted, uint16, Progress}
use storage_prototype.Tuple.Serializer.Variable.{
  write_or_mark, write_variable, write_if_variable, read_data, read_variable,
}
use storage_prototype.Tuple.Serializer.Variable.Data.{
  HoldsData, data_size, DataWritten, write_variable-DataWritten, HoldsData-is_null,
}
use storage_prototype.Tuple.Serializer.Variable.First.{HoldsField}
use storage_prototype.Tuple.Serializer.Variable.Moved.{next_index, field_size, SecondColumn}

-- The column with index `i`, `k` of variable length before it.
module _ (size i k : ℕ) (c : ColumnDefinition) (v : FieldValue) (p : Progress)
    (holds : HoldsField c v) (is_header : IsHeader p.header) (fits : EachFits p.header.var_offsets)
    (in_header : i < p.header.field_count)
    (first : is_field_null p.header i ≡ some (is_fixed_length c && v.is_null))
    (limit : size < 2 ^ 16) (room : p.current_offset + field_size c v ≤ size) where
  index : uint16 i ≡ i
  index = omega (arith, is_header.few_fields, in_header)

  -- A column of fixed length is passed over.
  fixed_column : is_fixed_length c ≡ true → SecondColumn size i k c v p p
  unfolding write_if_variable
  fixed_column fixed = record {
    returned = choose_true _ _ fixed ∙ ap (λ (j : ℕ). ok (p, j)) (sym (choose_true _ _ fixed));
    near = omega arith;
    moved = record {
      forward = omega arith;
      is_header = is_header;
      fits = fits;
      same_count = refl;
      same_var_count = refl;
      outside = λ x h. refl;
      nulls = λ j h. refl;
      offsets = λ j h. refl;
    };
    null = first ∙ ap (λ (b : Bool). some (b && v.is_null)) fixed;
    reads = λ h m same offset null var. absurd (differ (sym fixed ∙ var));
  }
    where
      differ : true ≡ false → ⊥
      differ h = subst (λ (b : Bool). elim b [ true ↦ Unit | false ↦ ⊥ ]) h tt

  module _ (var : is_fixed_length c ≡ false) (in_offsets : k < p.header.var_field_count) where
    finishes :
        (p' : Progress)
        → write_or_mark size i k c v p ≡ ok p'
        → write_if_variable size i c v (p, k) ≡ ok (p', next_index k c)
    unfolding write_if_variable
    finishes p' e =
        choose_false _ _ var
        ∙ ap (λ (r : Result Progress). r >>= (λ q. ok (q, uint16 (k + 1)))) e
        ∙ ap (λ (j : ℕ). ok (p', j)) (sym (choose_false _ _ var))

    sized : field_size c v ≡ data_size v
    sized = choose_false _ _ var

    -- What `read_variable` does after the null bit.
    abbrev read_marked : Bool → TupleHeader → Memory → Result (List FieldValue)
    read_marked b g m =
        if b
        then ok (field_null c.data_type ∷ [])
        else asserted (get_variable_length_offset g k) >>= (λ o.
          if o == 0xFFFF then ok (field_null c.data_type ∷ []) else ok (read_data c.data_type o m))

    -- A null.
    null_column : v ≡ field_null c.data_type → (p' : Progress) × SecondColumn size i k c v p p'
    unfolding field_null
    null_column is_null =
        let (marked, set, ok_marked, nulls) =
          set_field_null_lem p.header i true is_header in_header in
        let (count, var_count, offsets) =
          set_field_null_same p.header marked i true in_header set in
        let (h, w) =
          set_variable_length_offset_lem marked k 0xFFFF ok_marked
            (subst EachFits (sym offsets) fits) (omega (arith, var_count, in_offsets))
            (omega arith) in
        (
          record p { header = h },
          record {
            returned =
                finishes (record p { header = h })
                  (unfold write_or_mark in
                    choose_true _ _ (ap (λ (u : FieldValue). u.is_null) is_null)
                    ∙ ap (λ (o : Option TupleHeader). asserted o >>= (λ g. mark g))
                        (ap (λ (j : ℕ). set_field_null p.header j true) index ∙ set)
                    ∙ ap
                        (λ (o : Option TupleHeader).
                          asserted o >>= (λ g. ok (record p { header = g })))
                        w.returned);
            near = omega arith;
            moved = record {
              forward = omega arith;
              is_header = w.is_header;
              fits = w.fits;
              same_count = w.same_count ∙ count;
              same_var_count = w.same_var_count ∙ var_count;
              outside = λ x g. refl;
              nulls = λ j g. w.nulls j ∙ nulls j ∙ choose_false _ _ (ne→== i j (omega arith));
              offsets = λ j g.
                  w.elsewhere j (omega arith)
                  ∙ get_variable_length_offset_same p.header marked var_count offsets j;
            };
            null = w.nulls i ∙ now_null marked nulls;
            reads = λ g m same offset null not_fixed.
                unfold read_variable in
                ap (λ (j : ℕ). asserted (is_field_null g j) >>= (λ b. read_marked b g m)) index
                ∙ ap (λ (o : Option Bool). asserted o >>= (λ b. read_marked b g m))
                    (null ∙ ap some (ap (λ (u : FieldValue). u.is_null) is_null))
                ∙ ap (λ (u : FieldValue). ok (u ∷ [])) (sym is_null);
          },
        )
      where
        mark : TupleHeader → Result Progress
        mark g =
            asserted (set_variable_length_offset g k 0xFFFF)
            >>= (λ g'. ok (record p { header = g' }))

        now_null :
            (g : TupleHeader)
            → ((j : ℕ)
                → is_field_null g j ≡ (if i == j then some true else is_field_null p.header j))
            → is_field_null g i ≡ some v.is_null
        now_null g nulls =
            nulls i
            ∙ choose_true _ _ (==_self i)
            ∙ ap some (sym (ap (λ (u : FieldValue). u.is_null) is_null))

    -- A value.
    data_column : HoldsData c.data_type v → (p' : Progress) × SecondColumn size i k c v p p'
    data_column held = (
      d.p',
      record {
        returned = finishes d.p' (
            unfold write_or_mark in
            choose_false _ _ some_value
            ∙ ap
                (λ (o : Option TupleHeader).
                  asserted o >>= (λ g. write_variable c.data_type size v (record p { header = g })))
                w.returned
            ∙ d.returned);
        near = omega (arith, d.ends, sized);
        moved = record {
          forward = omega (arith, d.ends);
          is_header = subst IsHeader (sym d.same_header) w.is_header;
          fits = subst (λ (g : TupleHeader). EachFits g.var_offsets) (sym d.same_header) w.fits;
          same_count = ap (λ (g : TupleHeader). g.field_count) d.same_header ∙ w.same_count;
          same_var_count =
              ap (λ (g : TupleHeader). g.var_field_count) d.same_header ∙ w.same_var_count;
          outside = d.outside;
          nulls = λ j g. ap (λ (g : TupleHeader). is_field_null g j) d.same_header ∙ w.nulls j;
          offsets = λ j g.
              ap (λ (g : TupleHeader). get_variable_length_offset g j) d.same_header
              ∙ w.elsewhere j (omega arith);
        };
        null =
            ap (λ (g : TupleHeader). is_field_null g i) d.same_header
            ∙ w.nulls i
            ∙ first
            ∙ ap (λ (b : Bool). some (b && v.is_null)) var
            ∙ ap some (sym some_value);
        reads = λ g m same offset null not_fixed.
            unfold read_variable in
            ap (λ (j : ℕ). asserted (is_field_null g j) >>= (λ b. read_marked b g m)) index
            ∙ ap (λ (o : Option Bool). asserted o >>= (λ b. read_marked b g m))
                (null ∙ ap some some_value)
            ∙ ap
                (λ (o : Option ℕ). asserted o >>= (λ a.
                  if a == 0xFFFF
                  then ok (field_null c.data_type ∷ [])
                  else ok (read_data c.data_type a m)))
                (offset
                  ∙ ap (λ (g : TupleHeader). get_variable_length_offset g k) d.same_header
                  ∙ w.here
                  ∙ ap some small)
            ∙ choose_false _ _ (ne→== p.current_offset 0xFFFF (omega (arith, room, limit, sized)))
            ∙ ap (λ (us : List FieldValue). ok us) (d.reads m same);
      },
    )
      where
        some_value : v.is_null ≡ false
        some_value = HoldsData-is_null c.data_type v held

        small : uint16 p.current_offset ≡ p.current_offset
        small = omega (arith, room, limit, sized)

        offset_set : (h : TupleHeader) × OffsetSet p.header k (uint16 p.current_offset) h
        offset_set =
            set_variable_length_offset_lem p.header k (uint16 p.current_offset) is_header fits
              in_offsets (omega arith)

        h : TupleHeader
        h = offset_set.0

        w : OffsetSet p.header k (uint16 p.current_offset) h
        w = offset_set.1

        d :
            DataWritten v
              (record p { header = h })
              (write_variable c.data_type size v (record p { header = h }))
              (read_data c.data_type p.current_offset)
        d =
            write_variable-DataWritten c.data_type v size (record p { header = h }) held
              (omega (arith, room, sized)) limit

  pub second_column :
      (is_fixed_length c ≡ false → k < p.header.var_field_count)
      → (p' : Progress) × SecondColumn size i k c v p p'
  second_column in_offsets = elim (Bool-cases (is_fixed_length c)) [
    | inl fixed ↦ (p, fixed_column fixed)
    | inr var ↦ elim holds [
      | inl is_null ↦ null_column var (in_offsets var) is_null
      | inr value ↦
          data_column var (in_offsets var) (subst (λ (T : Type 0). T) (choose_false _ _ var) value)
    ]
  ]
