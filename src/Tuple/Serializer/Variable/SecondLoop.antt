-- ===== src/Tuple/Serializer/Variable/SecondLoop.antt =====
-- The second loop of `SerializeVariableLength`, over the columns of variable length.
use storage_prototype.Common.{
  ℕ, ◌+◌, ◌^◌, ◌≤◌, ◌<◌, ◌≡◌, ◌∙◌, inl, inr, refl, arith, ap, sym, subst, Bool, false, Bool-cases,
  choose_false, if◌then◌else◌, List, [], ◌∷◌, length,
}
use storage_prototype.Memory.{Memory}
use storage_prototype.Schema.{ColumnDefinition, is_fixed_length}
use storage_prototype.Tuple.Field.{FieldValue}
use storage_prototype.Tuple.Header.{TupleHeader, get_variable_length_offset}
use storage_prototype.Tuple.Header.Nulls.{IsHeader}
use storage_prototype.Tuple.Header.Image.{EachFits}
use storage_prototype.Tuple.Serializer.{Result, ok, ◌>>=◌, Progress, for_columns}
use storage_prototype.Tuple.Serializer.Scalars.{Agree}
use storage_prototype.Tuple.Serializer.Columns.{NullsOf}
use storage_prototype.Tuple.Serializer.Variable.{write_if_variable, read_variable}
use storage_prototype.Tuple.Serializer.Variable.First.{HoldsFields, FirstNulls, FirstNulls-congr}
use storage_prototype.Tuple.Serializer.Variable.Moved.{next_index, field_size, Moved, SecondColumn}
use storage_prototype.Tuple.Serializer.Variable.Second.{second_column}

-- The columns of variable length are read as their values.
abbrev pub VariableReads :
    ℕ → ℕ → List ColumnDefinition → List FieldValue → TupleHeader → Memory → Type 0
VariableReads i k [] vs h m = Unit
VariableReads i k (c ∷ cs) [] h m = Unit
VariableReads i k (c ∷ cs) (v ∷ vs) h m =
    (is_fixed_length c ≡ false → read_variable i k c h m ≡ ok (v ∷ []))
    × VariableReads (i + 1) (next_index k c) cs vs h m

-- How many columns are of variable length, and the bytes that their values take.
abbrev pub variable_count : List ColumnDefinition → ℕ
variable_count [] = 0
variable_count (c ∷ cs) = (if is_fixed_length c then 0 else 1) + variable_count cs

abbrev pub total_size : List ColumnDefinition → List FieldValue → ℕ
total_size [] vs = 0
total_size (c ∷ cs) [] = 0
total_size (c ∷ cs) (v ∷ vs) = field_size c v + total_size cs vs

pub next_index_lem :
    (k : ℕ) (c : ColumnDefinition)
    → k + 1 < 2 ^ 16
    → next_index k c ≡ k + (if is_fixed_length c then 0 else 1)
next_index_lem k c h = elim (Bool-cases (is_fixed_length c)) [
  | inl fixed ↦ rw fixed (omega arith)
  | inr var ↦ rw var (omega arith)
]

-- The columns with index `i` and on, from the one with index `k` of variable length on.
pub record SecondColumns (size i k : ℕ) (cols : List ColumnDefinition) (values : List FieldValue)
    (p : Progress) : Type 0 where
  pub p' : Progress
  pub last : ℕ
  pub returned : for_columns (write_if_variable size) i cols values (p, k) ≡ ok (p', last)
  pub near : p'.current_offset ≤ p.current_offset + total_size cols values
  pub moved : Moved i (length cols) k p p'
  pub nulls : NullsOf i values p'.header
  pub reads :
      (h : TupleHeader) (m : Memory)
      → Agree p.current_offset p'.current_offset m p'.buffer
      → ((j : ℕ) → k ≤ j → get_variable_length_offset h j ≡ get_variable_length_offset p'.header j)
      → NullsOf i values h
      → VariableReads i k cols values h m

Moved-trans :
    {i n t k l : ℕ} {p p' p'' : Progress}
    → t ≡ 1 + n
    → k ≤ l
    → Moved i 1 k p p'
    → Moved (i + 1) n l p' p''
    → Moved i t k p p''
Moved-trans e kl a b = record {
  forward = omega (arith, a.forward, b.forward);
  is_header = b.is_header;
  fits = b.fits;
  same_count = b.same_count ∙ a.same_count;
  same_var_count = b.same_var_count ∙ a.same_var_count;
  outside = λ x h.
      b.outside x (omega (arith, a.forward, b.forward))
      ∙ a.outside x (omega (arith, a.forward, b.forward));
  nulls = λ j h. b.nulls j (omega arith) ∙ a.nulls j (omega arith);
  offsets = λ j h. b.offsets j (omega arith) ∙ a.offsets j h;
}

module _ (size i k : ℕ) (c : ColumnDefinition) (cs : List ColumnDefinition) (v : FieldValue)
    (vs : List FieldValue) (p p' : Progress) (few : k + 1 < 2 ^ 16)
    (a : SecondColumn size i k c v p p')
    (b : SecondColumns size (i + 1) (next_index k c) cs vs p') where
  later : k ≤ next_index k c
  later = omega (arith, next_index_lem k c few)

  -- The offset of the first column, if it is of variable length, is not set again.
  own_offset :
      (h : TupleHeader)
      → ((j : ℕ)
          → k ≤ j
          → get_variable_length_offset h j ≡ get_variable_length_offset b.p'.header j)
      → is_fixed_length c ≡ false
      → get_variable_length_offset h k ≡ get_variable_length_offset p'.header k
  own_offset h same var =
      same k (omega arith)
      ∙ b.moved.offsets k (
          subst (λ (n : ℕ). k < n) (sym (next_index_lem k c few))
            (subst (λ (f : Bool). k < k + (if f then 0 else 1)) (sym var) (omega arith)))

  SecondColumns-cons : SecondColumns size i k (c ∷ cs) (v ∷ vs) p
  unfolding for_columns
  SecondColumns-cons = record {
    p' = b.p';
    last = b.last;
    returned =
        ap
          (λ (r : Result (Progress × ℕ)).
            r >>= (λ q. for_columns (write_if_variable size) (i + 1) cs vs q))
          a.returned
        ∙ b.returned;
    near = omega (arith, a.near, b.near);
    moved = Moved-trans (omega arith) later a.moved b.moved;
    nulls = (b.moved.nulls i (inl (omega arith)) ∙ a.null, b.nulls);
    reads = λ h m same offsets (null, nulls). (
      λ var.
          a.reads h m
            (λ x g l. same x g (omega (arith, b.moved.forward)) ∙ b.moved.outside x (inl l))
            (own_offset h offsets var) null var,
      b.reads h m (λ x g l. same x (omega (arith, a.moved.forward)) l)
          (λ j g. offsets j (omega (arith, later))) nulls,
    );
  }

-- The second loop writes the columns of variable length, and passes over the others.
pub second_columns :
    (size i k : ℕ) (cols : List ColumnDefinition) (values : List FieldValue) (p : Progress)
    → HoldsFields cols values
    → IsHeader p.header
    → EachFits p.header.var_offsets
    → i + length cols ≤ p.header.field_count
    → FirstNulls i cols values p.header
    → k + variable_count cols ≤ p.header.var_field_count
    → p.header.var_field_count < 2 ^ 15
    → size < 2 ^ 16
    → p.current_offset + total_size cols values ≤ size
    → SecondColumns size i k cols values p
unfolding for_columns
second_columns size i k [] [] p w is_header fits in_header nulls counted few limit room = record {
  p' = p;
  last = k;
  returned = refl;
  near = omega arith;
  moved = record {
    forward = omega arith;
    is_header = is_header;
    fits = fits;
    same_count = refl;
    same_var_count = refl;
    outside = λ x h. refl;
    nulls = λ j h. refl;
    offsets = λ j h. refl;
  };
  nulls = tt;
  reads = λ h m same offsets nulls. tt;
}
second_columns size i k [] (v ∷ vs) p w is_header fits in_header nulls counted few limit room =
    elim w [ ]
second_columns size i k (c ∷ cs) [] p w is_header fits in_header nulls counted few limit room =
    elim w [ ]
second_columns size i k (c ∷ cs) (v ∷ vs) p (w, ws) is_header fits in_header (null, nulls) counted
      few limit room =
    let next = next_index_lem k c (omega (arith, counted, few)) in
    let (p', a) =
      second_column size i k c v p w is_header fits (omega (arith, in_header)) null limit
        (omega (arith, room)) (λ var. omega (arith, counted, one var)) in
    let b =
      second_columns size (i + 1) (next_index k c) cs vs p' ws a.moved.is_header a.moved.fits
        (omega (arith, in_header, a.moved.same_count))
        (FirstNulls-congr (i + 1) cs vs p.header p'.header (λ j g. a.moved.nulls j (omega arith))
          nulls)
        (omega (arith, counted, next, a.moved.same_var_count))
        (omega (arith, few, a.moved.same_var_count)) limit (omega (arith, room, a.near)) in
    SecondColumns-cons size i k c cs v vs p p' (omega (arith, counted, few)) a b
  where
    one : is_fixed_length c ≡ false → ◌≡◌ {A = ℕ} (if is_fixed_length c then 0 else 1) 1
    one var = choose_false _ _ var
