-- ===== src/Tuple/Serializer/Fixed/Loops.antt =====
-- The loops of `SerializeFixedLength` and `DeserializeFixedLength` over all columns.
use storage_prototype.Common.{
  ℕ, ◌+◌, ◌^◌, ◌≤◌, ◌<◌, ◌≡◌, ◌∙◌, inl, refl, arith, ap, sym, subst, List, [], ◌∷◌, length,
}
use storage_prototype.Memory.{Memory}
use storage_prototype.Schema.{ColumnDefinition, align_offset}
use storage_prototype.Schema.Alignment.{align_offset_lem}
use storage_prototype.Schema.Layout.{extent}
use storage_prototype.Tuple.Field.{FieldValue}
use storage_prototype.Tuple.Header.{TupleHeader, is_field_null}
use storage_prototype.Tuple.Serializer.{
  Result, ok, ◌>>=◌, size64, Progress, write_column, for_columns, read_or_null,
}
use storage_prototype.Tuple.Serializer.Scalars.{Agree}
use storage_prototype.Tuple.Serializer.Columns.{
  NullsOf, end_of, extent_near, end_of-le, Written, IsReady, Written-trans, Written-IsReady,
  IsReady-shorter, Column, write_column_lem,
}
use storage_prototype.Tuple.Serializer.Fixed.{write_fixed, read_fixed, read_columns}
use storage_prototype.Tuple.Serializer.Fixed.Values.{Holds, Holds-Storable}

-- A value for each column, that the column can hold.
abbrev pub HoldsAll : List ColumnDefinition → List FieldValue → Type 0
HoldsAll [] [] = Unit
HoldsAll [] (v ∷ vs) = ⊥
HoldsAll (c ∷ cs) [] = ⊥
HoldsAll (c ∷ cs) (v ∷ vs) = Holds c v × HoldsAll cs vs

-- The columns with index `i` and on are written from `p` to `p'`, and can be read.
pub record Columns (i : ℕ) (cols : List ColumnDefinition) (values : List FieldValue)
    (p p' : Progress) : Type 0 where
  pub returned : for_columns (write_column write_fixed) i cols values p ≡ ok p'
  pub ends : p'.current_offset ≡ end_of p.current_offset cols
  pub written : Written i (length cols) p p'
  pub marked : NullsOf i values p'.header
  pub reads :
      (header : TupleHeader) (m : Memory)
      → Agree p.current_offset p'.current_offset m p'.buffer
      → ((j : ℕ) → i ≤ j → j < i + length cols → is_field_null header j ≡ is_field_null p'.header j)
      → read_columns i cols header m p.current_offset ≡ ok values

module _ (i : ℕ) (c : ColumnDefinition) (cs : List ColumnDefinition) (v : FieldValue)
    (vs : List FieldValue) (p p' p'' : Progress) (a : Column write_fixed read_fixed i c v p p')
    (b : Columns (i + 1) cs vs p' p'')
    (no_wrap : p.current_offset + c.fixed_size + 15 ≤ 2 ^ 64) where
  next_offset :
      size64 (align_offset p.current_offset c.data_type + c.fixed_size) ≡ p'.current_offset
  next_offset =
      let (_, near, _, _) =
        align_offset_lem p.current_offset c.data_type (omega (arith, no_wrap)) in
      omega (arith, near, no_wrap, a.ends)

  first_read :
      (header : TupleHeader) (m : Memory)
      → Agree p.current_offset p''.current_offset m p''.buffer
      → is_field_null header i ≡ is_field_null p''.header i
      → read_or_null read_fixed i c header m (align_offset p.current_offset c.data_type) ≡ ok v
  first_read header m same null =
      a.reads header m
        (λ x g h. same x g (omega (arith, b.written.forward)) ∙ b.written.outside x (inl h))
        (null ∙ b.written.nulls i (inl (omega arith)))

  rest_read :
      (header : TupleHeader) (m : Memory)
      → Agree p.current_offset p''.current_offset m p''.buffer
      → ((j : ℕ)
          → i + 1 ≤ j
          → j < i + 1 + length cs
          → is_field_null header j ≡ is_field_null p''.header j)
      → read_columns
          (i + 1)
          cs
          header
          m
          (size64 (align_offset p.current_offset c.data_type + c.fixed_size))
        ≡ ok vs
  rest_read header m same nulls =
      ap (λ (o : ℕ). read_columns (i + 1) cs header m o) next_offset
      ∙ b.reads header m (λ x g h. same x (omega (arith, a.written.forward)) h) nulls

  Columns-cons : Columns i (c ∷ cs) (v ∷ vs) p p''
  unfolding for_columns read_columns
  Columns-cons = record {
    returned =
        ap
          (λ (r : Result Progress).
            r >>= (λ q. for_columns (write_column write_fixed) (i + 1) cs vs q))
          a.returned
        ∙ b.returned;
    ends = b.ends ∙ ap (λ (o : ℕ). end_of o cs) a.ends;
    written = Written-trans (omega arith) a.written b.written;
    marked = (b.written.nulls i (inl (omega arith)) ∙ a.marked, b.marked);
    reads = λ header m same nulls.
        ap
          (λ (r : Result FieldValue). r >>= (λ u.
            read_columns (i + 1) cs header m
              (size64 (align_offset p.current_offset c.data_type + c.fixed_size))
            >>= (λ us. ok (u ∷ us))))
          (first_read header m same (nulls i (omega arith) (omega arith)))
        ∙ ap (λ (r : Result (List FieldValue)). r >>= (λ us. ok (v ∷ us)))
            (rest_read header m same (λ j g h. nulls j (omega arith) (omega arith)));
  }

-- Values that the columns can hold are written one after the other, and read back.
pub for_columns_lem :
    (i : ℕ) (cols : List ColumnDefinition) (values : List FieldValue) (limit : ℕ) (p : Progress)
    → HoldsAll cols values
    → IsReady i (length cols) limit p
    → p.current_offset + extent cols + 15 ≤ 2 ^ 64
    → end_of p.current_offset cols ≤ limit
    → (p' : Progress) × Columns i cols values p p'
unfolding for_columns read_columns
for_columns_lem i [] [] limit p w ready no_wrap fits = (
  p,
  record {
    returned = refl;
    ends = refl;
    written = record {
      forward = omega arith;
      is_header = ready.is_header;
      same_count = refl;
      same_var_count = refl;
      same_offsets = refl;
      outside = λ x h. refl;
      nulls = λ j h. refl;
    };
    marked = tt;
    reads = λ header m same nulls. refl;
  },
)
for_columns_lem i [] (v ∷ vs) limit p w ready no_wrap fits = elim w [ ]
for_columns_lem i (c ∷ cs) [] limit p w ready no_wrap fits = elim w [ ]
for_columns_lem i (c ∷ cs) (v ∷ vs) limit p (w, ws) ready no_wrap fits =
    let near = extent_near p.current_offset c cs no_wrap in
    let inner =
      end_of-le (align_offset p.current_offset c.data_type + c.fixed_size) cs
        (omega (arith, near, no_wrap)) in
    let (p', a) =
      write_column_lem write_fixed read_fixed i c v p limit (IsReady-shorter (omega arith) ready)
        (omega (arith, no_wrap)) (omega (arith, inner, fits)) (Holds-Storable c v w) in
    let (p'', b) =
      for_columns_lem (i + 1) cs vs limit p' ws (Written-IsReady (omega arith) ready a.written)
        (omega (arith, a.ends, near, no_wrap))
        (subst (λ (o : ℕ). end_of o cs ≤ limit) (sym a.ends) fits) in
    (p'', Columns-cons i c cs v vs p p' p'' a b (omega (arith, no_wrap)))
