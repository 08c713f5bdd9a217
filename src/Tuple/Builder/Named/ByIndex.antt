-- ===== src/Tuple/Builder/Named/ByIndex.antt =====
-- A setter by name does what the setter by index does at the name's index.
use storage_prototype.Common.{
  ℕ, ◌<◌, ◌≡◌, sym, refl, true, ltb, lt→ltb, Option, none, some, length, inl, inr, subst,
}
use storage_prototype.Schema.{DataType, Name, find_index, get_column}
use storage_prototype.Schema.Numbering.{IsNumbered, find_lem}
use storage_prototype.Tuple.Field.{FieldValue}
use storage_prototype.Tuple.Builder.{
  TupleBuilder, Outcome, fails, column_not_found, put_checked, set_at, set_null_at,
}
use storage_prototype.Tuple.Builder.Named.{
  with_field_index, validate_column_name, assign, set_named, set_null,
}

-- What a setter by index does at an index that may be missing.
abbrev pub found_at : Option ℕ → (ℕ → Outcome TupleBuilder) → Outcome TupleBuilder
found_at none next = fails column_not_found
found_at (some i) next = next i

-- In a builder with a value or none for each column of a schema whose columns are numbered, a setter
-- by name, and `SetNull` by name, do what the setter by index does at the name's index; a name that
-- the schema does not have is the error that the column is not found.
pub set_named_lem :
    (b : TupleBuilder) (expected : DataType) (v : FieldValue) (name : Name)
    → IsNumbered b.schema
    → length b.values ≡ length b.schema.columns
    → (set_named expected v name b
        ≡ found_at (find_index b.schema.column_name_to_index name) (λ i. set_at expected v i b))
      × (set_null name b
          ≡ found_at (find_index b.schema.column_name_to_index name) (λ i. set_null_at i b))
unfolding set_named set_null with_field_index validate_column_name set_at set_null_at get_column
    put_checked assign
set_named_lem b expected v name w long = elim (find_lem b.schema name w) [
  | inl (absent, unknown) ↦ (rw (absent, unknown) refl, rw (absent, unknown) refl)
  | inr (i, c, found, known, named, at, number, p) ↦
      let fits : ltb i (length b.values) ≡ true =
        lt→ltb _ _ (subst (λ (n : ℕ). i < n) (sym long) p) in
      (rw (found, known, named, at, number, fits) refl, rw (found, known, named, number) refl)
]
