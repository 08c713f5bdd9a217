-- ===== src/Tuple/Accessor/ByName.antt =====
-- A method that takes a name does what the method that takes an index does.
use storage_prototype.Common.{
  ℕ, ◌≡◌, ◌∙◌, refl, sym, ap, true, choose_true, Option, none, some, inl, inr,
}
use storage_prototype.Schema.{
  DataType, Name, ColumnDefinition, find_index, get_column, get_column_named, has_column,
}
use storage_prototype.Schema.Numbering.{IsNumbered, find_lem}
use storage_prototype.Tuple.Field.{FieldValue, Read, get_string}
use storage_prototype.Tuple.Accessor.{
  no_column, no_index, Access, gives, raises, TupleAccessor, Method, ◌>>=◌, continue, look, present,
  read_result, of_type, is_string, column_named, column_at_index, field_index_of, validate_name,
  validate_field_index, header_null, is_null_at, is_null_named, cached_value, get_at, get_named,
  get_string_at, get_string_named, get_field_value_at, get_field_value_named,
}

-- A method by index, at an index that may be missing.
abbrev pub where_found : {A : Type 0} → Option ℕ → (ℕ → Method A) → Method A
where_found none m a = (raises no_column, a)
where_found (some i) m a = m i a

bind_at :
    {A B : Type 0} {a : TupleAccessor} {o : Access A × TupleAccessor} {r : Access A}
    (k : A → Method B)
    → o ≡ (r, a)
    → continue o.0 o.1 k ≡ continue r a k
bind_at k e = ap (λ (o : Access _ × TupleAccessor). continue o.0 o.1 k) e

-- A name that finds the column `c` at index `i`.
module _ (a : TupleAccessor) (name : Name) (i : ℕ) (c : ColumnDefinition)
    (known : has_column a.schema name ≡ true) (named : get_column_named a.schema name ≡ some c)
    (at : get_column a.schema i ≡ some c) (number : c.field_index ≡ i) where
  column_named_at : column_named name a ≡ (gives c, a)
  unfolding column_named
  column_named_at =
      ap (λ (r : Access ColumnDefinition). (r, a))
        (choose_true _ _ known ∙ ap (present no_index) named)

  column_at_index_at : column_at_index i a ≡ (gives c, a)
  unfolding column_at_index
  column_at_index_at = ap (λ (o : Option ColumnDefinition). (present no_index o, a)) at

  field_index_of_at : field_index_of name a ≡ (gives i, a)
  unfolding field_index_of
  field_index_of_at =
      bind_at (λ col. look (λ b. gives col.field_index)) column_named_at
      ∙ ap (λ (j : ℕ). (gives j, a)) number

  is_null_at_name : is_null_named name a ≡ is_null_at i a
  unfolding is_null_named is_null_at
  is_null_at_name =
      bind_at header_null field_index_of_at
      ∙ sym (bind_at (λ col. header_null i) column_at_index_at)

  get_field_value_at_name : get_field_value_named name a ≡ get_field_value_at i a
  unfolding get_field_value_named
  get_field_value_at_name = bind_at get_field_value_at field_index_of_at

  -- The type is checked twice, with the same result.
  module _ {A : Type 0} (expected : DataType) (get : FieldValue → Read A) where
    checked_twice :
        (r : Access (Unit {0}))
        → of_type expected c ≡ r
        → get_named expected get name a ≡ get_at expected get i a
    unfolding get_named get_at validate_name validate_field_index
    checked_twice (gives u) e =
        bind_at _ (
          bind_at (λ col. look (λ b. of_type expected col)) column_named_at
          ∙ ap (λ (r : Access (Unit {0})). (r, a)) e)
        ∙ bind_at (get_at expected get) field_index_of_at
    checked_twice (raises x) e =
        bind_at _ (
          bind_at (λ col. look (λ b. of_type expected col)) column_named_at
          ∙ ap (λ (r : Access (Unit {0})). (r, a)) e)
        ∙ sym (
            bind_at _ (
              bind_at (λ col. look (λ b. of_type expected col)) column_at_index_at
              ∙ ap (λ (r : Access (Unit {0})). (r, a)) e))

  string_checked_twice :
      (r : Access (Unit {0})) → is_string c ≡ r → get_string_named name a ≡ get_string_at i a
  unfolding get_string_named get_string_at
  string_checked_twice (gives u) e =
      bind_at _ field_index_of_at
      ∙ bind_at _ column_at_index_at
      ∙ ap (λ (r : Access (Unit {0})). continue r a (λ w. get_string_at i)) e
  string_checked_twice (raises x) e =
      bind_at _ field_index_of_at
      ∙ bind_at _ column_at_index_at
      ∙ ap (λ (r : Access (Unit {0})). continue r a (λ w. get_string_at i)) e
      ∙ sym (
          bind_at _ column_at_index_at
          ∙ ap
              (λ (r : Access (Unit {0})).
                continue r a
                  (λ w. cached_value i >>= (λ v. look (λ b. read_result (get_string v)))))
              e)

-- On a schema whose columns are numbered, every method by name returns what the method by index
-- returns at the name's index, and leaves the same accessor; for a name that the schema does not
-- have it is the error that the column is not found.
pub named_lem :
    {A : Type 0} (expected : DataType) (get : FieldValue → Read A) (name : Name) (a : TupleAccessor)
    → IsNumbered a.schema
    → let at = find_index a.schema.column_name_to_index name in
      (is_null_named name a ≡ where_found at is_null_at a)
      × (get_named expected get name a ≡ where_found at (get_at expected get) a)
      × (get_string_named name a ≡ where_found at get_string_at a)
      × (get_field_value_named name a ≡ where_found at get_field_value_at a)
unfolding is_null_named get_named get_string_named get_field_value_named column_named field_index_of
    validate_name get_column
named_lem expected get name a w = elim (find_lem a.schema name w) [
  | inl (absent, unknown) ↦ (
    rw (absent, unknown) refl,
    rw (absent, unknown) refl,
    rw (absent, unknown) refl,
    rw (absent, unknown) refl,
  )
  | inr (i, c, found, known, named, at, number, p) ↦ rw found (
    is_null_at_name a name i c known named at number,
    checked_twice a name i c known named at number expected get (of_type expected c) refl,
    string_checked_twice a name i c known named at number (is_string c) refl,
    get_field_value_at_name a name i c known named at number,
  )
]
