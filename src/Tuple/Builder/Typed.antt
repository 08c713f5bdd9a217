-- ===== src/Tuple/Builder/Typed.antt =====
-- What the builder lets through fits the schema.
use storage_prototype.Common.{
  ℕ, zero, suc, ◌≡◌, refl, sym, ap, ◌∙◌, Bool, true, false, ◌&&◌, ◌==◌, ==→eq, Bool-cases,
  choose_true, choose_false, Option, none, some, List, [], ◌∷◌, length, get_elem?, set, replicate,
  ◌⊎◌, inl, inr, subst, Option-cases, both_true,
}
use storage_prototype.Schema.{ColumnDefinition, DataType, get_column}
use storage_prototype.Tuple.Field.{FieldValue, type_code, field_null}
use storage_prototype.Tuple.Builder.{
  TupleBuilder, Outcome, done, fails, put, put_checked, set_at, null_checked, set_null_at,
  is_complete, fill, build, field_not_set,
}

-- A value that may stand in a column: of its type, and null only where the column allows it.
pub record Fits (c : ColumnDefinition) (v : FieldValue) : Type 0 where
  pub same_type : type_code v.type ≡ type_code c.data_type
  pub nulls : v.is_null ≡ true → c.is_nullable ≡ true

abbrev pub FitsIfSet : ColumnDefinition → Option FieldValue → Type 0
FitsIfSet c none = Unit
FitsIfSet c (some v) = Fits c v

-- One value for each column, unset or fitting.
abbrev pub Typed : List ColumnDefinition → List (Option FieldValue) → Type 0
Typed [] [] = Unit
Typed (c ∷ cs) (v ∷ vs) = FitsIfSet c v × Typed cs vs
Typed [] (v ∷ vs) = ⊥
Typed (c ∷ cs) [] = ⊥

-- One value for each column, fitting.
abbrev pub Row : List ColumnDefinition → List FieldValue → Type 0
Row [] [] = Unit
Row (c ∷ cs) (v ∷ vs) = Fits c v × Row cs vs
Row [] (v ∷ vs) = ⊥
Row (c ∷ cs) [] = ⊥

pub Typed-replicate : (cs : List ColumnDefinition) → Typed cs (replicate (length cs) none)
Typed-replicate [] = tt
Typed-replicate (c ∷ cs) = (tt, Typed-replicate cs)

some_column : {a b : ColumnDefinition} → some a ≡ some b → a ≡ b
some_column {a} e = ap (λ (o : Option ColumnDefinition). elim o [ some x ↦ x | none ↦ a ]) e

Typed-set :
    (cs : List ColumnDefinition) (vs : List (Option FieldValue)) (i : ℕ) (c : ColumnDefinition)
    (v : FieldValue)
    → Typed cs vs
    → get_elem? cs i ≡ some c
    → Fits c v
    → Typed cs (set vs i (some v))
Typed-set [] [] i c v w at f = tt
Typed-set [] (u ∷ vs) i c v w at f = elim w [ ]
Typed-set (d ∷ cs) [] i c v w at f = elim w [ ]
Typed-set (d ∷ cs) (u ∷ vs) zero c v (x, w) at f =
    (subst (λ (e : ColumnDefinition). Fits e v) (some_column (sym at)) f, w)
Typed-set (d ∷ cs) (u ∷ vs) (suc i) c v (x, w) at f = (x, Typed-set cs vs i c v w at f)

fill-Row :
    (cs : List ColumnDefinition) (vs : List (Option FieldValue))
    → Typed cs vs
    → is_complete cs vs ≡ true
    → Row cs (fill cs vs)
unfolding fill is_complete field_null
fill-Row [] [] w e = tt
fill-Row [] (v ∷ vs) w e = elim w [ ]
fill-Row (c ∷ cs) [] w e = elim w [ ]
fill-Row (c ∷ cs) (some v ∷ vs) (f, w) e = (f, fill-Row cs vs w e)
fill-Row (c ∷ cs) (none ∷ vs) (f, w) e = (
  record { same_type = refl; nulls = λ h. (both_true _ _ e).0 },
  fill-Row cs vs w (both_true _ _ e).1,
)

-- Every column that is not nullable has a value.
abbrev pub Complete : List ColumnDefinition → List (Option FieldValue) → Type 0
Complete cols values =
    (i : ℕ) (c : ColumnDefinition)
    → get_elem? cols i ≡ some c
    → get_elem? values i ≡ some none
    → c.is_nullable ≡ true

-- A column that is not nullable has no value.
pub record Missing (cols : List ColumnDefinition) (values : List (Option FieldValue)) : Type 0 where
  pub index : ℕ
  pub column : ColumnDefinition
  pub at : get_elem? cols index ≡ some column
  pub not_nullable : column.is_nullable ≡ false
  pub unset : get_elem? values index ≡ some none

is_complete-Complete :
    (cs : List ColumnDefinition) (vs : List (Option FieldValue))
    → Typed cs vs
    → is_complete cs vs ≡ true
    → Complete cs vs
unfolding is_complete
is_complete-Complete [] vs w e i c at unset = absurd (cc (at))
is_complete-Complete (c ∷ cs) [] w e i d at unset = elim w [ ]
is_complete-Complete (c ∷ cs) (some v ∷ vs) (f, w) e zero d at unset = absurd (cc (unset))
is_complete-Complete (c ∷ cs) (some v ∷ vs) (f, w) e (suc i) d at unset =
    is_complete-Complete cs vs w e i d at unset
is_complete-Complete (c ∷ cs) (none ∷ vs) (f, w) e zero d at unset =
    subst (λ (x : ColumnDefinition). x.is_nullable ≡ true) (some_column at) (both_true _ _ e).0
is_complete-Complete (c ∷ cs) (none ∷ vs) (f, w) e (suc i) d at unset =
    is_complete-Complete cs vs w (both_true _ _ e).1 i d at unset

Missing-tail :
    (c : ColumnDefinition) (v : Option FieldValue) (cs : List ColumnDefinition)
    (vs : List (Option FieldValue))
    → Missing cs vs
    → Missing (c ∷ cs) (v ∷ vs)
Missing-tail c v cs vs m = record {
  index = suc m.index;
  column = m.column;
  at = m.at;
  not_nullable = m.not_nullable;
  unset = m.unset;
}

is_complete-Missing :
    (cs : List ColumnDefinition) (vs : List (Option FieldValue))
    → Typed cs vs
    → is_complete cs vs ≡ false
    → Missing cs vs
unfolding is_complete
is_complete-Missing [] vs w e = absurd (cc (e))
is_complete-Missing (c ∷ cs) [] w e = elim w [ ]
is_complete-Missing (c ∷ cs) (some v ∷ vs) (f, w) e =
    Missing-tail c (some v) cs vs (is_complete-Missing cs vs w e)
is_complete-Missing (c ∷ cs) (none ∷ vs) (f, w) e = elim (Bool-cases c.is_nullable) [
  | inr n ↦ record { index = zero; column = c; at = refl; not_nullable = n; unset = refl }
  | inl n ↦
      Missing-tail c none cs vs
        (is_complete-Missing cs vs w (sym (ap (λ (b : Bool). b && is_complete cs vs) n) ∙ e))
]

-- Building from values that fit where they are set: either every column that is not nullable has a
-- value, and the result is a row of the schema, with a value of its column's type for every column and
-- null only in nullable columns; or some column that is not nullable has no value, and the result is
-- the error that a field is not set.
pub build_lem :
    (b : TupleBuilder)
    → Typed b.schema.columns b.values
    → (Complete b.schema.columns b.values
        × (build b ≡ done (fill b.schema.columns b.values))
        × Row b.schema.columns (fill b.schema.columns b.values))
      ⊎ (Missing b.schema.columns b.values × (build b ≡ fails field_not_set))
unfolding build
build_lem b w = elim (Bool-cases (is_complete b.schema.columns b.values)) [
  | inl e ↦ inl (
    is_complete-Complete b.schema.columns b.values w e,
    choose_true _ _ e,
    fill-Row b.schema.columns b.values w e,
  )
  | inr e ↦ inr (is_complete-Missing b.schema.columns b.values w e, choose_false _ _ e)
]

-- What a call leaves: the builder's values still fit, and an error has nothing to show.
abbrev pub KeepsTyped : TupleBuilder → Outcome TupleBuilder → Type 0
KeepsTyped b (done b') = (b'.schema ≡ b.schema) × Typed b.schema.columns b'.values
KeepsTyped b (fails e) = Unit

-- A setter by index, given a value of the type that it checks for, and `SetNull` leave values that fit
-- the schema or fail: no call stores a value of another type, or null where it is not allowed.
pub set_at_lem :
    (b : TupleBuilder) (expected : DataType) (v : FieldValue) (i : ℕ)
    → Typed b.schema.columns b.values
    → type_code v.type ≡ type_code expected
    → v.is_null ≡ false
    → KeepsTyped b (set_at expected v i b) × KeepsTyped b (set_null_at i b)
unfolding set_at set_null_at get_column put_checked null_checked put field_null
set_at_lem b expected v i w same some_value = elim (Option-cases (get_elem? b.schema.columns i)) [
  | inl absent ↦ rw absent (tt, tt)
  | inr (c, at) ↦ rw at (typed c at, nulled c at)
]
  where
    contra : true ≡ false → ⊥
    contra h = subst (λ (c : Bool). elim c [ true ↦ Unit | false ↦ ⊥ ]) h tt

    typed :
        (c : ColumnDefinition)
        → get_elem? b.schema.columns i ≡ some c
        → KeepsTyped b (put_checked b i expected v (some c))
    typed c at = elim (Bool-cases (type_code c.data_type == type_code expected)) [
      | inl e ↦ subst (KeepsTyped b) (sym (choose_true _ _ e)) (
        refl,
        Typed-set _ _ i c v w at (record {
          same_type = same ∙ sym (==→eq _ _ e);
          nulls = λ h. absurd (contra (sym h ∙ some_value));
        }),
      )
      | inr e ↦ subst (KeepsTyped b) (sym (choose_false _ _ e)) tt
    ]

    nulled :
        (c : ColumnDefinition)
        → get_elem? b.schema.columns i ≡ some c
        → KeepsTyped b (null_checked b i (some c))
    nulled c at = elim (Bool-cases c.is_nullable) [
      | inl e ↦
          subst (KeepsTyped b) (sym (choose_true _ _ e))
            (refl, Typed-set _ _ i c _ w at (record { same_type = refl; nulls = λ h. e }))
      | inr e ↦ subst (KeepsTyped b) (sym (choose_false _ _ e)) tt
    ]
