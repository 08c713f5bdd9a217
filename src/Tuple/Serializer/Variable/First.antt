-- ===== src/Tuple/Serializer/Variable/First.antt =====
-- The first loop of `SerializeVariableLength`, over the columns of fixed length.
use storage_prototype.Common.{
  ℕ, ◌+◌, ◌^◌, ◌≤◌, ◌≡◌, ◌⊎◌, ◌∙◌, inl, inr, refl, arith, ap, sym, subst, Bool, true, false, ◌&&◌,
  Bool-cases, choose_true, choose_false, if◌then◌else◌, some, List, [], ◌∷◌, length,
}
use storage_prototype.Memory.{Memory}
use storage_prototype.Schema.{ColumnDefinition, align_offset, is_fixed_length}
use storage_prototype.Schema.Alignment.{align_offset_lem}
use storage_prototype.Schema.Layout.{extent}
use storage_prototype.Tuple.Field.{FieldValue, field_null}
use storage_prototype.Tuple.Header.{TupleHeader, is_field_null}
use storage_prototype.Tuple.Serializer.{
  Result, ok, ◌>>=◌, size64, Progress, for_columns, read_or_null,
}
use storage_prototype.Tuple.Serializer.Scalars.{
  Agree, HoldsScalar, write_scalar-Wrote, HoldsScalar-is_null,
}
use storage_prototype.Tuple.Serializer.Columns.{
  NullsOf, Written, IsReady, IsReady-shorter, Written-IsReady, Written-trans, Storable,
  write_column_lem,
}
use storage_prototype.Tuple.Serializer.Variable.{write_number, read_number, write_if_fixed}
use storage_prototype.Tuple.Serializer.Variable.Data.{HoldsData}

-- A null, or a value that the column holds, of fixed or of variable length as the column.
abbrev pub HoldsField : ColumnDefinition → FieldValue → Type 0
HoldsField c v =
    (v ≡ field_null c.data_type)
    ⊎ (if is_fixed_length c
        then HoldsScalar c.data_type c.fixed_size v
        else HoldsData c.data_type v)

abbrev pub HoldsFields : List ColumnDefinition → List FieldValue → Type 0
HoldsFields [] [] = Unit
HoldsFields [] (v ∷ vs) = ⊥
HoldsFields (c ∷ cs) [] = ⊥
HoldsFields (c ∷ cs) (v ∷ vs) = HoldsField c v × HoldsFields cs vs

-- The null bits after the first loop: those of the columns of fixed length.
abbrev pub FirstNulls : ℕ → List ColumnDefinition → List FieldValue → TupleHeader → Type 0
FirstNulls i [] vs h = Unit
FirstNulls i (c ∷ cs) [] h = Unit
FirstNulls i (c ∷ cs) (v ∷ vs) h =
    (is_field_null h i ≡ some (is_fixed_length c && v.is_null)) × FirstNulls (i + 1) cs vs h

pub FirstNulls-congr :
    (i : ℕ) (cols : List ColumnDefinition) (vs : List FieldValue) (h h' : TupleHeader)
    → ((j : ℕ) → i ≤ j → is_field_null h' j ≡ is_field_null h j)
    → FirstNulls i cols vs h
    → FirstNulls i cols vs h'
FirstNulls-congr i [] vs h h' same w = tt
FirstNulls-congr i (c ∷ cs) [] h h' same w = tt
FirstNulls-congr i (c ∷ cs) (v ∷ vs) h h' same (w, ws) =
    (same i (omega arith) ∙ w, FirstNulls-congr (i + 1) cs vs h h' (λ j g. same j (omega arith)) ws)

-- Where the next column of fixed length is looked for.
abbrev pub next_offset : ℕ → ColumnDefinition → ℕ
next_offset o c =
    if is_fixed_length c then size64 (align_offset o c.data_type + c.fixed_size) else o

-- The columns of fixed length are read as their values.
abbrev pub FixedReads :
    ℕ → List ColumnDefinition → List FieldValue → TupleHeader → Memory → ℕ → Type 0
FixedReads i [] vs h m o = Unit
FixedReads i (c ∷ cs) [] h m o = Unit
FixedReads i (c ∷ cs) (v ∷ vs) h m o =
    (is_fixed_length c ≡ true
      → read_or_null read_number i c h m (align_offset o c.data_type) ≡ ok v)
    × FixedReads (i + 1) cs vs h m (next_offset o c)

-- One column, with index `i`, in the first loop.
record FirstColumn (i : ℕ) (c : ColumnDefinition) (v : FieldValue) (p p' : Progress) : Type 0 where
  returned : write_if_fixed i c v p ≡ ok p'
  next : p'.current_offset ≡ next_offset p.current_offset c
  near : p'.current_offset ≤ p.current_offset + c.fixed_size + 7
  written : Written i 1 p p'
  null : is_field_null p'.header i ≡ some (is_fixed_length c && v.is_null)
  reads :
      (h : TupleHeader) (m : Memory)
      → Agree p.current_offset p'.current_offset m p'.buffer
      → is_field_null h i ≡ some v.is_null
      → is_fixed_length c ≡ true
      → read_or_null read_number i c h m (align_offset p.current_offset c.data_type) ≡ ok v

-- The columns with index `i` and on in the first loop.
pub record FirstColumns (i : ℕ) (cols : List ColumnDefinition) (values : List FieldValue)
    (p p' : Progress) : Type 0 where
  pub returned : for_columns write_if_fixed i cols values p ≡ ok p'
  pub near : p'.current_offset ≤ p.current_offset + extent cols
  pub written : Written i (length cols) p p'
  pub nulls : FirstNulls i cols values p'.header
  pub reads :
      (h : TupleHeader) (m : Memory)
      → Agree p.current_offset p'.current_offset m p'.buffer
      → NullsOf i values h
      → FixedReads i cols values h m p.current_offset

module _ (i : ℕ) (c : ColumnDefinition) (v : FieldValue) (p : Progress) (limit : ℕ)
    (holds : HoldsField c v) (ready : IsReady i 1 limit p)
    (no_wrap : p.current_offset + c.fixed_size + 15 ≤ 2 ^ 64)
    (fits : p.current_offset + c.fixed_size + 7 ≤ limit) where
  fixed_column : is_fixed_length c ≡ true → (p' : Progress) × FirstColumn i c v p p'
  unfolding write_if_fixed write_number read_number
  fixed_column fixed =
      let near_offset = align_offset_lem p.current_offset c.data_type (omega (arith, no_wrap)) in
      let (p', w) =
        write_column_lem write_number read_number i c v p limit ready no_wrap
          (omega (arith, near_offset.1, fits)) storable in
      (
        p',
        record {
          returned = choose_true _ _ fixed ∙ w.returned;
          next = w.ends ∙ sym (end near_offset.1) ∙ sym (choose_true _ _ fixed);
          near = omega (arith, w.ends, near_offset.1);
          written = w.written;
          null = w.marked ∙ ap (λ (b : Bool). some (b && v.is_null)) (sym fixed);
          reads = λ h m same null is_fixed. w.reads h m same (null ∙ sym w.marked);
        },
      )
    where
      storable : Storable write_number read_number c v
      storable = elim holds [
        | inl is_null ↦ inl is_null
        | inr value ↦
            let scalar = subst (λ (T : Type 0). T) (choose_true _ _ fixed) value in
            inr (
              HoldsScalar-is_null c.data_type c.fixed_size v scalar,
              λ o m clear. write_scalar-Wrote c.fixed_size o m c.data_type v scalar,
            )
      ]

      end :
          align_offset p.current_offset c.data_type ≤ p.current_offset + 7
          → size64 (align_offset p.current_offset c.data_type + c.fixed_size)
            ≡ align_offset p.current_offset c.data_type + c.fixed_size
      end near = omega (arith, near, no_wrap)

  variable_column : is_fixed_length c ≡ false → FirstColumn i c v p p
  unfolding write_if_fixed
  variable_column var = record {
    returned = choose_false _ _ var;
    next = sym (choose_false _ _ var);
    near = omega arith;
    written = record {
      forward = omega arith;
      is_header = ready.is_header;
      same_count = refl;
      same_var_count = refl;
      same_offsets = refl;
      outside = λ x h. refl;
      nulls = λ j h. refl;
    };
    null =
        ready.unset i (omega arith) (omega arith)
        ∙ ap (λ (b : Bool). some (b && v.is_null)) (sym var);
    reads = λ h m same null fixed. absurd (differ (sym fixed ∙ var));
  }
    where
      differ : true ≡ false → ⊥
      differ h = subst (λ (b : Bool). elim b [ true ↦ Unit | false ↦ ⊥ ]) h tt

  first_column : (p' : Progress) × FirstColumn i c v p p'
  first_column = elim (Bool-cases (is_fixed_length c)) [
    | inl fixed ↦ fixed_column fixed
    | inr var ↦ (p, variable_column var)
  ]

module _ (i : ℕ) (c : ColumnDefinition) (cs : List ColumnDefinition) (v : FieldValue)
    (vs : List FieldValue) (p p' p'' : Progress) (a : FirstColumn i c v p p')
    (b : FirstColumns (i + 1) cs vs p' p'') where
  FirstColumns-cons : FirstColumns i (c ∷ cs) (v ∷ vs) p p''
  unfolding for_columns
  FirstColumns-cons = record {
    returned =
        ap (λ (r : Result Progress). r >>= (λ q. for_columns write_if_fixed (i + 1) cs vs q))
          a.returned
        ∙ b.returned;
    near = omega (arith, a.near, b.near);
    written = Written-trans (omega arith) a.written b.written;
    nulls = (b.written.nulls i (inl (omega arith)) ∙ a.null, b.nulls);
    reads = λ h m same (null, nulls). (
      a.reads h m
          (λ x g l. same x g (omega (arith, b.written.forward)) ∙ b.written.outside x (inl l)) null,
      subst (FixedReads (i + 1) cs vs h m) a.next
          (b.reads h m (λ x g l. same x (omega (arith, a.written.forward)) l) nulls),
    );
  }

-- The first loop writes the columns of fixed length, and passes over the others.
pub first_columns :
    (i : ℕ) (cols : List ColumnDefinition) (values : List FieldValue) (limit : ℕ) (p : Progress)
    → HoldsFields cols values
    → IsReady i (length cols) limit p
    → p.current_offset + extent cols + 15 ≤ 2 ^ 64
    → p.current_offset + extent cols ≤ limit
    → (p' : Progress) × FirstColumns i cols values p p'
unfolding for_columns
first_columns i [] [] limit p w ready no_wrap fits = (
  p,
  record {
    returned = refl;
    near = omega arith;
    written = record {
      forward = omega arith;
      is_header = ready.is_header;
      same_count = refl;
      same_var_count = refl;
      same_offsets = refl;
      outside = λ x h. refl;
      nulls = λ j h. refl;
    };
    nulls = tt;
    reads = λ h m same nulls. tt;
  },
)
first_columns i [] (v ∷ vs) limit p w ready no_wrap fits = elim w [ ]
first_columns i (c ∷ cs) [] limit p w ready no_wrap fits = elim w [ ]
first_columns i (c ∷ cs) (v ∷ vs) limit p (w, ws) ready no_wrap fits =
    let (p', a) =
      first_column i c v p limit w (IsReady-shorter (omega arith) ready) (omega (arith, no_wrap))
        (omega (arith, fits)) in
    let (p'', b) =
      first_columns (i + 1) cs vs limit p' ws (Written-IsReady (omega arith) ready a.written)
        (omega (arith, a.near, no_wrap)) (omega (arith, a.near, fits)) in
    (p'', FirstColumns-cons i c cs v vs p p' p'' a b)
