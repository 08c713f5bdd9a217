-- ===== src/Tuple/Serializer/Variable/Reading.antt =====
-- The loop of `DeserializeVariableLength`, and the counts of the columns.
use storage_prototype.Common.{
  ℕ, suc, ◌+◌, ◌^◌, ◌≤◌, ◌<◌, ◌≡◌, ◌⊎◌, ◌∙◌, inl, inr, refl, arith, ap, true, false, Bool-cases,
  choose_true, choose_false, if◌then◌else◌, List, [], ◌∷◌, ◌++◌, length,
}
use storage_prototype.Memory.{Memory}
use storage_prototype.Schema.{ColumnDefinition, is_fixed_length}
use storage_prototype.Tuple.Field.{FieldValue}
use storage_prototype.Tuple.Header.{TupleHeader}
use storage_prototype.Tuple.Serializer.{Result, ok, ◌>>=◌}
use storage_prototype.Tuple.Serializer.Size.{count_variable}
use storage_prototype.Tuple.Serializer.Variable.{read_field, read_fields}
use storage_prototype.Tuple.Serializer.Variable.First.{HoldsFields, next_offset, FixedReads}
use storage_prototype.Tuple.Serializer.Variable.Moved.{next_index}
use storage_prototype.Tuple.Serializer.Variable.SecondLoop.{
  VariableReads, variable_count, next_index_lem,
}

-- Columns that are read as their values one by one are read as the values.
pub read_fields_lem :
    (i k : ℕ) (cols : List ColumnDefinition) (values : List FieldValue) (h : TupleHeader)
    (m : Memory) (o : ℕ)
    → HoldsFields cols values
    → FixedReads i cols values h m o
    → VariableReads i k cols values h m
    → read_fields i cols h m o k ≡ ok values
unfolding read_fields read_field
read_fields_lem i k [] [] h m o w fixed var = refl
read_fields_lem i k [] (v ∷ vs) h m o w fixed var = elim w [ ]
read_fields_lem i k (c ∷ cs) [] h m o w fixed var = elim w [ ]
read_fields_lem i k (c ∷ cs) (v ∷ vs) h m o (w, ws) (fixed, fixeds) (var, vars) =
    ap
      (λ (r : Result (List FieldValue)). r >>= (λ us.
        read_fields (i + 1) cs h m (next_offset o c) (next_index k c) >>= (λ vs. ok (us ++ vs))))
      (one (Bool-cases (is_fixed_length c)))
    ∙ ap (λ (r : Result (List FieldValue)). r >>= (λ us. ok (v ∷ us)))
        (read_fields_lem (i + 1) (next_index k c) cs vs h m (next_offset o c) ws fixeds vars)
  where
    one :
        (is_fixed_length c ≡ true) ⊎ (is_fixed_length c ≡ false)
        → read_field i k c h m o ≡ ok (v ∷ [])
    one (inl e) =
        choose_true _ _ e ∙ ap (λ (r : Result FieldValue). r >>= (λ u. ok (u ∷ []))) (fixed e)
    one (inr e) = choose_false _ _ e ∙ var e

pub HoldsFields-length :
    (cols : List ColumnDefinition) (values : List FieldValue)
    → HoldsFields cols values
    → length values ≡ length cols
HoldsFields-length [] [] h = refl
HoldsFields-length [] (v ∷ vs) h = elim h [ ]
HoldsFields-length (c ∷ cs) [] h = elim h [ ]
HoldsFields-length (c ∷ cs) (v ∷ vs) (h, hs) = ap suc (HoldsFields-length cs vs hs)

pub variable_count-le : (cols : List ColumnDefinition) → variable_count cols ≤ length cols
variable_count-le [] = omega arith
variable_count-le (c ∷ cs) = elim (Bool-cases (is_fixed_length c)) [
  | inl fixed ↦ rw fixed (omega (arith, variable_count-le cs))
  | inr var ↦ rw var (omega (arith, variable_count-le cs))
]

pub count_variable_lem :
    (cols : List ColumnDefinition) (n : ℕ)
    → n + length cols < 2 ^ 16
    → count_variable cols n ≡ n + variable_count cols
unfolding count_variable
count_variable_lem [] n h = omega arith
count_variable_lem (c ∷ cs) n h =
    let next = next_index_lem n c (omega arith) in
    ap (count_variable cs) next
    ∙ count_variable_lem cs (n + (if is_fixed_length c then 0 else 1))
        (bound (Bool-cases (is_fixed_length c)))
    ∙ omega arith
  where
    bound :
        (is_fixed_length c ≡ true) ⊎ (is_fixed_length c ≡ false)
        → n + (if is_fixed_length c then 0 else 1) + length cs < 2 ^ 16
    bound (inl fixed) = rw fixed (omega (arith, h))
    bound (inr var) = rw var (omega (arith, h))
