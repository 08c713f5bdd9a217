-- ===== src/Schema/Columns.antt =====
-- `AddColumn` and the look-ups by name and by index.
use storage_prototype.Common.{
  ℕ, zero, suc, ◌+◌, ◌%◌, ◌^◌, ◌<◌, ◌≡◌, ◌∙◌, sym, ap, refl, arith, Bool, true, false,
  if◌then◌else◌, Option, none, some, List, [], ◌∷◌, ◌++◌, length, get_elem?, length-append,
  Bool-cases, inl, inr, ◌⊎◌, Option-cases, choose_true, choose_false, subst,
}
use storage_prototype.Schema.{
  DataType, Name, ColumnDefinition, Schema, new_schema, same_name, find_index, is_some, column_at,
  new_column, add_column, get_column, get_column_named, has_column, get_column_count,
}

-- Every index in the map is that of a column.
abbrev pub Indexed : Schema → Type 0
Indexed s =
    (name : Name) (i : ℕ) → find_index s.column_name_to_index name ≡ some i → i < length s.columns

some_injective : {a b : ℕ} → some a ≡ some b → a ≡ b
some_injective {a} h = ap (λ (o : Option ℕ). elim o [ some x ↦ x | none ↦ a ]) h

get_elem?-append_left :
    {A : Type 0} (xs ys : List A) (i : ℕ) → i < length xs → get_elem? (xs ++ ys) i ≡ get_elem? xs i
get_elem?-append_left [] ys i h = absurd (omega arith)
get_elem?-append_left (x ∷ xs) ys zero h = refl
get_elem?-append_left (x ∷ xs) ys (suc i) h = get_elem?-append_left xs ys i (omega arith)

get_elem?-append_last :
    {A : Type 0} (xs : List A) (x : A) → get_elem? (xs ++ (x ∷ [])) (length xs) ≡ some x
get_elem?-append_last [] x = refl
get_elem?-append_last (y ∷ xs) x = get_elem?-append_last xs x

module _ (s : Schema) (name : Name) (type : DataType) (nullable : Bool) (size_param : ℕ)
    (few : length s.columns < 2 ^ 16) where
  index_fits : length s.columns % 2 ^ 16 ≡ length s.columns
  index_fits = omega arith

  find_index-add_column :
      (q : Name)
      → find_index (add_column s name type nullable size_param).column_name_to_index q ≡ (
          if same_name name q then some (length s.columns) else find_index s.column_name_to_index q)
  unfolding add_column find_index
  find_index-add_column q = rw index_fits refl

  grown : length (add_column s name type nullable size_param).columns ≡ length s.columns + 1
  unfolding add_column
  grown = length-append s.columns _

  index_new :
      (q : Name)
      → same_name name q ≡ true
      → find_index (add_column s name type nullable size_param).column_name_to_index q
        ≡ some (length s.columns)
  index_new q e = find_index-add_column q ∙ choose_true _ _ e

  index_old :
      (q : Name)
      → same_name name q ≡ false
      → find_index (add_column s name type nullable size_param).column_name_to_index q
        ≡ find_index s.column_name_to_index q
  index_old q e = find_index-add_column q ∙ choose_false _ _ e

  abbrev t_columns : List ColumnDefinition
  t_columns = (add_column s name type nullable size_param).columns

  last_column :
      get_elem? t_columns (length s.columns) ≡ some (new_column s name type nullable size_param)
  unfolding add_column
  last_column = get_elem?-append_last s.columns _

  same_column : (i : ℕ) → i < length s.columns → get_elem? t_columns i ≡ get_elem? s.columns i
  unfolding add_column
  same_column i h = get_elem?-append_left s.columns _ i h

  old_column :
      Indexed s
      → (q : Name)
      → (find_index s.column_name_to_index q ≡ none)
        ⊎ ((i : ℕ) × (find_index s.column_name_to_index q ≡ some i))
      → column_at t_columns (find_index s.column_name_to_index q)
        ≡ column_at s.columns (find_index s.column_name_to_index q)
  unfolding column_at
  old_column indexed q (inl unknown) = rw unknown refl
  old_column indexed q (inr (i, found)) =
      ap (column_at t_columns) found
      ∙ same_column i (indexed q i found)
      ∙ sym (ap (column_at s.columns) found)

  -- After fewer than 2 ^ 16 columns, `AddColumn` appends the column that its arguments describe, the
  -- name finds it, every other name finds what it found before, every index keeps its column, and
  -- all indices in the map stay those of columns.
  pub add_column_lem :
      Indexed s
      → let t = add_column s name type nullable size_param in
        (get_column_count t ≡ get_column_count s + 1)
        × ((q : Name)
            → get_column_named t q ≡ (
                if same_name name q
                then some (new_column s name type nullable size_param)
                else get_column_named s q))
        × ((q : Name) → has_column t q ≡ (if same_name name q then true else has_column s q))
        × ((i : ℕ) → i < get_column_count s → get_column t i ≡ get_column s i)
        × Indexed t
  unfolding get_column_count get_column_named has_column get_column column_at
  add_column_lem indexed = (
    grown,
    λ q. by_name q (Bool-cases (same_name name q)),
    λ q. known q (Bool-cases (same_name name q)),
    λ i h. same_column i h,
    λ q i found. in_range q i found (Bool-cases (same_name name q)),
  )
    where
      by_name :
          (q : Name)
          → (same_name name q ≡ true) ⊎ (same_name name q ≡ false)
          → get_column_named (add_column s name type nullable size_param) q ≡ (
              if same_name name q
              then some (new_column s name type nullable size_param)
              else get_column_named s q)
      by_name q (inl e) =
          ap (column_at t_columns) (index_new q e) ∙ last_column ∙ sym (choose_true _ _ e)
      by_name q (inr e) =
          ap (column_at t_columns) (index_old q e)
          ∙ old_column indexed q (Option-cases (find_index s.column_name_to_index q))
          ∙ sym (choose_false _ _ e)

      known :
          (q : Name)
          → (same_name name q ≡ true) ⊎ (same_name name q ≡ false)
          → has_column (add_column s name type nullable size_param) q
            ≡ (if same_name name q then true else has_column s q)
      known q (inl e) = ap is_some (index_new q e) ∙ sym (choose_true _ _ e)
      known q (inr e) = ap is_some (index_old q e) ∙ sym (choose_false _ _ e)

      in_range :
          (q : Name) (i : ℕ)
          → find_index (add_column s name type nullable size_param).column_name_to_index q ≡ some i
          → (same_name name q ≡ true) ⊎ (same_name name q ≡ false)
          → i < length (add_column s name type nullable size_param).columns
      in_range q i found (inl e) =
          rw grown (omega (arith, some_injective (sym (index_new q e) ∙ found)))
      in_range q i found (inr e) =
          rw grown (omega (arith, indexed q i (sym (index_old q e) ∙ found)))

pub new_schema-Indexed : Indexed new_schema
unfolding find_index
new_schema-Indexed name i found = elim (found_none i found) [ ]
  where
    found_none : (i : ℕ) → none ≡ some i → ⊥
    found_none i e = subst (λ (o : Option ℕ). elim o [ none ↦ Unit | some x ↦ ⊥ ]) e tt
