-- ===== src/Schema/Numbering.antt =====
-- The number that `AddColumn` gives a column is its index, and what a name finds has it.
use storage_prototype.Common.{
  ℕ, zero, suc, ◌+◌, ◌/◌, ◌^◌, ◌<◌, ◌≡◌, ◌∙◌, sym, ap, refl, arith, Bool, true, false, none, some,
  List, [], ◌∷◌, ◌++◌, length, get_elem?, Bool-cases, inl, inr, ◌⊎◌, Option-cases, choose_true,
  choose_false, subst,
}
use storage_prototype.Schema.{
  DataType, Name, ColumnDefinition, Schema, new_schema, find_index, is_some, column_at, new_column,
  add_column, get_column_named, has_column, lay_out, finalize,
}
use storage_prototype.Schema.Columns.{Indexed}

-- The columns from index `start` on are numbered from there.
abbrev pub NumberedFrom : ℕ → List ColumnDefinition → Type 0
NumberedFrom start [] = Unit
NumberedFrom start (c ∷ cs) = (c.field_index ≡ start) × NumberedFrom (start + 1) cs

-- Every index in the map is that of a column, and every column has its index as its number.
pub record IsNumbered (s : Schema) : Type 0 where
  pub indexed : Indexed s
  pub numbers : NumberedFrom 0 s.columns

NumberedFrom-append :
    (start : ℕ) (cs : List ColumnDefinition) (c : ColumnDefinition)
    → NumberedFrom start cs
    → c.field_index ≡ start + length cs
    → NumberedFrom start (cs ++ (c ∷ []))
NumberedFrom-append start [] c h e = (omega (arith, e), tt)
NumberedFrom-append start (d ∷ cs) c (h, hs) e =
    (h, NumberedFrom-append (start + 1) cs c hs (omega (arith, e)))

NumberedFrom-lay_out :
    (start o : ℕ) (cs : List ColumnDefinition)
    → NumberedFrom start cs
    → NumberedFrom start (lay_out o cs).0
unfolding lay_out
NumberedFrom-lay_out start o [] h = tt
NumberedFrom-lay_out start o (c ∷ cs) (h, hs) = (h, NumberedFrom-lay_out (start + 1) _ cs hs)

-- The column at an index, with its number.
pub NumberedFrom-get_elem? :
    (start i : ℕ) (cs : List ColumnDefinition)
    → NumberedFrom start cs
    → i < length cs
    → (c : ColumnDefinition) × (get_elem? cs i ≡ some c) × (c.field_index ≡ start + i)
NumberedFrom-get_elem? start i [] h p = elim p [ ]
NumberedFrom-get_elem? start zero (c ∷ cs) (h, hs) p = (c, refl, omega (arith, h))
NumberedFrom-get_elem? start (suc i) (c ∷ cs) (h, hs) p =
    let (d, at, number) = NumberedFrom-get_elem? (start + 1) i cs hs (omega arith) in
    (d, at, omega (arith, number))

length-lay_out : (cs : List ColumnDefinition) (o : ℕ) → length (lay_out o cs).0 ≡ length cs
unfolding lay_out
length-lay_out [] o = refl
length-lay_out (c ∷ cs) o = ap suc (length-lay_out cs _)

-- What `Finalize` leaves.
finalized : (s : Schema) → s.is_finalized ≡ false → IsNumbered s → IsNumbered (finalize s)
unfolding finalize
finalized s fresh w = subst IsNumbered (sym (choose_false _ _ fresh)) (record {
  indexed = λ q i found.
      subst (λ (n : ℕ). i < n) (sym (length-lay_out s.columns ((s.nullable_count + 7) / 8)))
        (w.indexed q i found);
  numbers = NumberedFrom-lay_out 0 ((s.nullable_count + 7) / 8) s.columns w.numbers;
})

again : (s : Schema) → s.is_finalized ≡ true → finalize s ≡ s
unfolding finalize
again s final = choose_true _ _ final

pub finalize-IsNumbered : (s : Schema) → IsNumbered s → IsNumbered (finalize s)
finalize-IsNumbered s w = elim (Bool-cases s.is_finalized) [
  | inl final ↦ subst IsNumbered (sym (again s final)) w
  | inr fresh ↦ finalized s fresh w
]

-- What a name finds: nothing, or the column at the index in the map, which has that number.
pub find_lem :
    (s : Schema) (name : Name)
    → IsNumbered s
    → ((find_index s.column_name_to_index name ≡ none) × (has_column s name ≡ false))
      ⊎ ((i : ℕ) × (c : ColumnDefinition) × (find_index s.column_name_to_index name ≡ some i)
          × (has_column s name ≡ true)
          × (get_column_named s name ≡ some c)
          × (get_elem? s.columns i ≡ some c)
          × (c.field_index ≡ i)
          × (i < length s.columns))
unfolding has_column get_column_named column_at
find_lem s name w = elim (Option-cases (find_index s.column_name_to_index name)) [
  | inl absent ↦ inl (absent, ap is_some absent)
  | inr (i, found) ↦
      let p = w.indexed name i found in
      let (c, at, number) = NumberedFrom-get_elem? 0 i s.columns w.numbers p in
      inr (
        i,
        c,
        found,
        ap is_some found,
        ap (column_at s.columns) found ∙ at,
        at,
        omega (arith, number),
        p,
      )
]

pub new_schema-IsNumbered : Indexed new_schema → IsNumbered new_schema
new_schema-IsNumbered h = record { indexed = h; numbers = tt }

-- `AddColumn` keeps the numbers, as long as they fit.
pub add_column-IsNumbered :
    (s : Schema) (name : Name) (type : DataType) (nullable : Bool) (size_param : ℕ)
    → length s.columns < 2 ^ 16
    → Indexed (add_column s name type nullable size_param)
    → IsNumbered s
    → IsNumbered (add_column s name type nullable size_param)
unfolding add_column new_column
add_column-IsNumbered s name type nullable size_param few indexed w = record {
  indexed = indexed;
  numbers = NumberedFrom-append 0 s.columns _ w.numbers (omega (arith, few));
}
