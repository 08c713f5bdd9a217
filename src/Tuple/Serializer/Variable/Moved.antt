-- ===== src/Tuple/Serializer/Variable/Moved.antt =====
-- What the second loop of `SerializeVariableLength` leaves of the columns that it is not at.
use storage_prototype.Common.{ℕ, ◌+◌, ◌≤◌, ◌<◌, ◌≡◌, ◌⊎◌, false, if◌then◌else◌, some, [], ◌∷◌}
use storage_prototype.Memory.{Memory}
use storage_prototype.Schema.{ColumnDefinition, is_fixed_length}
use storage_prototype.Tuple.Field.{FieldValue}
use storage_prototype.Tuple.Header.{TupleHeader, is_field_null, get_variable_length_offset}
use storage_prototype.Tuple.Header.Nulls.{IsHeader}
use storage_prototype.Tuple.Header.Image.{EachFits}
use storage_prototype.Tuple.Serializer.{ok, uint16, Progress}
use storage_prototype.Tuple.Serializer.Scalars.{Agree}
use storage_prototype.Tuple.Serializer.Variable.{write_if_variable, read_variable}
use storage_prototype.Tuple.Serializer.Variable.Data.{data_size}

-- The index of the next column of variable length, and the bytes that a column takes among these.
abbrev pub next_index : ℕ → ColumnDefinition → ℕ
next_index k c = if is_fixed_length c then k else uint16 (k + 1)

abbrev pub field_size : ColumnDefinition → FieldValue → ℕ
field_size c v = if is_fixed_length c then 0 else data_size v

-- What `n` columns with index `i` and on, `k` of variable length before them, leave alone.
pub record Moved (i n k : ℕ) (p p' : Progress) : Type 0 where
  pub forward : p.current_offset ≤ p'.current_offset
  pub is_header : IsHeader p'.header
  pub fits : EachFits p'.header.var_offsets
  pub same_count : p'.header.field_count ≡ p.header.field_count
  pub same_var_count : p'.header.var_field_count ≡ p.header.var_field_count
  pub outside :
      (x : ℕ) → (x < p.current_offset) ⊎ (p'.current_offset ≤ x) → p'.buffer x ≡ p.buffer x
  pub nulls : (j : ℕ) → (j < i) ⊎ (i + n ≤ j) → is_field_null p'.header j ≡ is_field_null p.header j
  pub offsets :
      (j : ℕ)
      → j < k
      → get_variable_length_offset p'.header j ≡ get_variable_length_offset p.header j

pub record SecondColumn (size i k : ℕ) (c : ColumnDefinition) (v : FieldValue) (p p' : Progress)
    : Type 0 where
  pub returned : write_if_variable size i c v (p, k) ≡ ok (p', next_index k c)
  pub near : p'.current_offset ≤ p.current_offset + field_size c v
  pub moved : Moved i 1 k p p'
  pub null : is_field_null p'.header i ≡ some v.is_null
  pub reads :
      (h : TupleHeader) (m : Memory)
      → Agree p.current_offset p'.current_offset m p'.buffer
      → get_variable_length_offset h k ≡ get_variable_length_offset p'.header k
      → is_field_null h i ≡ some v.is_null
      → is_fixed_length c ≡ false
      → read_variable i k c h m ≡ ok (v ∷ [])
