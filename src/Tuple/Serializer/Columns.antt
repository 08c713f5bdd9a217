-- ===== src/Tuple/Serializer/Columns.antt =====
-- One column of fixed length: what is written to it is read back, and what it leaves alone.
use storage_prototype.Common.{
  ℕ, ◌+◌, ◌^◌, ◌≤◌, ◌<◌, ◌≡◌, ◌⊎◌, ◌∙◌, inl, inr, refl, arith, ap, sym, true, false, ==_self, ne→==,
  choose_true, choose_false, Option, some, List, [], ◌∷◌,
}
use storage_prototype.Memory.{Memory}
use storage_prototype.Schema.{ColumnDefinition, align_offset}
use storage_prototype.Schema.Alignment.{align_offset_lem}
use storage_prototype.Schema.Layout.{extent}
use storage_prototype.Tuple.Field.{FieldValue, field_null}
use storage_prototype.Tuple.Header.{TupleHeader, set_field_null, is_field_null}
use storage_prototype.Tuple.Header.Nulls.{IsHeader, set_field_null_lem, set_field_null_same}
use storage_prototype.Tuple.Serializer.{
  Result, ok, ◌>>=◌, asserted, uint16, size64, Progress, write_or_null, write_column, read_or_null,
}
use storage_prototype.Tuple.Serializer.Scalars.{Agree, Wrote}

-- The offset after columns that are laid out from `o` on.
abbrev pub end_of : ℕ → List ColumnDefinition → ℕ
end_of o [] = o
end_of o (c ∷ cs) = end_of (align_offset o c.data_type + c.fixed_size) cs

pub extent_near :
    (o : ℕ) (c : ColumnDefinition) (cs : List ColumnDefinition)
    → o + extent (c ∷ cs) + 15 ≤ 2 ^ 64
    → (o ≤ align_offset o c.data_type) × (align_offset o c.data_type ≤ o + 7)
extent_near o c cs h =
    let (a, b, _, _) = align_offset_lem o c.data_type (omega (arith, h)) in (a, b)

pub end_of-le : (o : ℕ) (cs : List ColumnDefinition) → o + extent cs + 15 ≤ 2 ^ 64 → o ≤ end_of o cs
end_of-le o [] h = omega arith
end_of-le o (c ∷ cs) h =
    let near = extent_near o c cs h in
    omega
      (arith, near, end_of-le (align_offset o c.data_type + c.fixed_size) cs (omega (arith, near)))

-- What writing leaves of the columns but those with index `i` up to `i + n`, and of the bytes
-- outside of theirs.
pub record Written (i n : ℕ) (p p' : Progress) : Type 0 where
  pub forward : p.current_offset ≤ p'.current_offset
  pub is_header : IsHeader p'.header
  pub same_count : p'.header.field_count ≡ p.header.field_count
  pub same_var_count : p'.header.var_field_count ≡ p.header.var_field_count
  pub same_offsets : p'.header.var_offsets ≡ p.header.var_offsets
  pub outside :
      (x : ℕ) → (x < p.current_offset) ⊎ (p'.current_offset ≤ x) → p'.buffer x ≡ p.buffer x
  pub nulls : (j : ℕ) → (j < i) ⊎ (i + n ≤ j) → is_field_null p'.header j ≡ is_field_null p.header j

-- The null bits from index `i` on are those of the values.
abbrev pub NullsOf : ℕ → List FieldValue → TupleHeader → Type 0
NullsOf i [] h = Unit
NullsOf i (v ∷ vs) h = (is_field_null h i ≡ some v.is_null) × NullsOf (i + 1) vs h

pub NullsOf-congr :
    (i : ℕ) (vs : List FieldValue) (h h' : TupleHeader)
    → ((j : ℕ) → i ≤ j → is_field_null h' j ≡ is_field_null h j)
    → NullsOf i vs h
    → NullsOf i vs h'
NullsOf-congr i [] h h' same w = tt
NullsOf-congr i (v ∷ vs) h h' same (w, ws) =
    (same i (omega arith) ∙ w, NullsOf-congr (i + 1) vs h h' (λ j g. same j (omega arith)) ws)

-- A state from which `n` columns from index `i` on can be written, up to the byte `limit`.
pub record IsReady (i n limit : ℕ) (p : Progress) : Type 0 where
  pub is_header : IsHeader p.header
  pub in_header : i + n ≤ p.header.field_count
  pub unset : (j : ℕ) → i ≤ j → j < i + n → is_field_null p.header j ≡ some false
  pub clear : (x : ℕ) → p.current_offset ≤ x → x < limit → p.buffer x ≡ 0

pub Written-trans :
    {i n k t : ℕ} {p p' p'' : Progress}
    → t ≡ n + k
    → Written i n p p'
    → Written (i + n) k p' p''
    → Written i t p p''
Written-trans e a b = record {
  forward = omega (arith, a.forward, b.forward);
  is_header = b.is_header;
  same_count = b.same_count ∙ a.same_count;
  same_var_count = b.same_var_count ∙ a.same_var_count;
  same_offsets = b.same_offsets ∙ a.same_offsets;
  outside = λ x h.
      b.outside x (omega (arith, a.forward, b.forward))
      ∙ a.outside x (omega (arith, a.forward, b.forward));
  nulls = λ j h. b.nulls j (omega arith) ∙ a.nulls j (omega arith);
}

pub IsReady-shorter :
    {i n t limit : ℕ} {p : Progress} → n ≤ t → IsReady i t limit p → IsReady i n limit p
IsReady-shorter e r = record {
  is_header = r.is_header;
  in_header = omega (arith, r.in_header);
  unset = λ j h h'. r.unset j h (omega arith);
  clear = r.clear;
}

pub Written-IsReady :
    {i n k t limit : ℕ} {p p' : Progress}
    → t ≡ n + k
    → IsReady i t limit p
    → Written i n p p'
    → IsReady (i + n) k limit p'
Written-IsReady e r w = record {
  is_header = w.is_header;
  in_header = omega (arith, r.in_header, w.same_count);
  unset = λ j h h'. w.nulls j (omega arith) ∙ r.unset j (omega arith) (omega arith);
  clear = λ x h h'. w.outside x (omega arith) ∙ r.clear x (omega (arith, w.forward)) h';
}

module _ (write : ColumnDefinition → FieldValue → ℕ → Memory → Result Memory)
    (read : ColumnDefinition → ℕ → Memory → Result FieldValue) where
  -- A null, or a value that the switches write and read within the column's bytes if these are 0.
  abbrev pub Storable : ColumnDefinition → FieldValue → Type 0
  Storable col v =
      (v ≡ field_null col.data_type)
      ⊎ ((v.is_null ≡ false)
          × ((o : ℕ) (m : Memory)
              → Agree o (o + col.fixed_size) m (λ x. 0)
              → Wrote v o col.fixed_size m (write col v o m) (read col o)))

  -- The column with index `i` is written from `p` to `p'`, and can be read.
  pub record Column (i : ℕ) (col : ColumnDefinition) (v : FieldValue) (p p' : Progress)
      : Type 0 where
    pub returned : write_column write i col v p ≡ ok p'
    pub ends : p'.current_offset ≡ align_offset p.current_offset col.data_type + col.fixed_size
    pub written : Written i 1 p p'
    pub marked : is_field_null p'.header i ≡ some v.is_null
    pub reads :
        (header : TupleHeader) (m : Memory)
        → Agree p.current_offset p'.current_offset m p'.buffer
        → is_field_null header i ≡ is_field_null p'.header i
        → read_or_null read i col header m (align_offset p.current_offset col.data_type) ≡ ok v

  module _ (i : ℕ) (col : ColumnDefinition) (v : FieldValue) (p : Progress) (limit : ℕ)
      (ready : IsReady i 1 limit p) (no_wrap : p.current_offset + col.fixed_size + 15 ≤ 2 ^ 64)
      (fits : align_offset p.current_offset col.data_type + col.fixed_size ≤ limit) where
    abbrev start : ℕ
    start = align_offset p.current_offset col.data_type

    near : (p.current_offset ≤ start) × (start ≤ p.current_offset + 7)
    near =
        let (a, b, _, _) =
          align_offset_lem p.current_offset col.data_type (omega (arith, no_wrap)) in
        (a, b)

    index : uint16 i ≡ i
    index = omega (arith, ready.is_header.few_fields, ready.in_header)

    -- The column after the write of its value or its null bit.
    abbrev moved : Memory → TupleHeader → Progress
    moved buffer header = record {
      buffer = buffer;
      header = header;
      current_offset = size64 (start + col.fixed_size);
    }

    finishes :
        (buffer : Memory) (header : TupleHeader)
        → write_or_null write i col v start p ≡ ok (buffer, header)
        → write_column write i col v p ≡ ok (moved buffer header)
    unfolding write_column
    finishes buffer header e =
        ap (λ (r : Result (Memory × TupleHeader)). r >>= (λ x. ok (moved x.0 x.1))) e

    end : size64 (start + col.fixed_size) ≡ start + col.fixed_size
    end = omega (arith, near.1, no_wrap)

    value_written :
        v.is_null ≡ false
        → Wrote v start col.fixed_size p.buffer (write col v start p.buffer) (read col start)
        → (p' : Progress) × Column i col v p p'
    value_written some_value w = (
      moved w.after p.header,
      record {
        returned = finishes w.after p.header (
            unfold write_or_null in
            choose_false _ _ some_value
            ∙ ap (λ (r : Result Memory). r >>= (λ b. ok (b, p.header))) w.returned);
        ends = end;
        written = record {
          forward = omega (arith, near.0, end);
          is_header = ready.is_header;
          same_count = refl;
          same_var_count = refl;
          same_offsets = refl;
          outside = λ x h. w.outside x (omega (arith, near.0, end));
          nulls = λ j h. refl;
        };
        marked = ready.unset i (omega arith) (omega arith) ∙ ap some (sym some_value);
        reads = λ header m same null.
            unfold read_or_null in
            rw (index, null ∙ ready.unset i (omega arith) (omega arith))
              (w.reads m (λ x a b. same x (omega (arith, near.0)) (omega (arith, end))));
      },
    )

    null_written : v ≡ field_null col.data_type → (p' : Progress) × Column i col v p p'
    unfolding field_null
    null_written is_null =
        let (header, set, ok_header, nulls) =
          set_field_null_lem p.header i true ready.is_header (omega (arith, ready.in_header)) in
        let (same_count, same_var_count, same_offsets) =
          set_field_null_same p.header header i true (omega (arith, ready.in_header)) set in
        (
          moved p.buffer header,
          record {
            returned = finishes p.buffer header (
                unfold write_or_null in
                choose_true _ _ (ap (λ (u : FieldValue). u.is_null) is_null)
                ∙ ap (λ (o : Option TupleHeader). asserted o >>= (λ h. ok (p.buffer, h)))
                    (ap (λ (j : ℕ). set_field_null p.header j true) index ∙ set));
            ends = end;
            written = record {
              forward = omega (arith, near.0, end);
              is_header = ok_header;
              same_count = same_count;
              same_var_count = same_var_count;
              same_offsets = same_offsets;
              outside = λ x h. refl;
              nulls = λ j h. nulls j ∙ choose_false _ _ (ne→== i j (omega arith));
            };
            marked =
                nulls i
                ∙ choose_true _ _ (==_self i)
                ∙ ap some (sym (ap (λ (u : FieldValue). u.is_null) is_null));
            reads = λ header' m same null.
                unfold read_or_null in rw (index, null ∙ nulls i, ==_self i) (ap ok (sym is_null));
          },
        )

    -- A null or a value that fits is written, and read back from its bytes and the null bit.
    pub write_column_lem : Storable col v → (p' : Progress) × Column i col v p p'
    write_column_lem (inl is_null) = null_written is_null
    write_column_lem (inr (some_value, writes)) = value_written some_value (
        writes start p.buffer
          (λ x a b. ready.clear x (omega (arith, near.0)) (omega (arith, fits))))
