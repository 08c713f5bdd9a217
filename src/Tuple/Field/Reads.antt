-- ===== src/Tuple/Field/Reads.antt =====
-- Which getter reads a value, and what it returns.
use storage_prototype.Common.{
  ℕ, ◌+◌, ◌%◌, ◌^◌, ◌≡◌, arith, refl, ap, Bool, true, false, if◌then◌else◌, List,
}
use storage_prototype.Schema.{
  DataType, boolean, tinyint, smallint, integer, bigint, float, double, char, varchar, text, blob,
  Name,
}
use storage_prototype.Tuple.Field.{
  FieldValue, Read, returns, throws, type_code, field_boolean, field_tinyint, field_smallint,
  field_integer, field_bigint, field_float, field_double, field_char, field_varchar, field_text,
  field_value, field_blob, get_boolean, get_tinyint, get_smallint, get_integer, get_bigint,
  get_float, get_double, get_string, get_blob,
}

-- 1 for a call that returns.
abbrev pub accepted : {A : Type 0} → Read A → ℕ
accepted (returns a) = 1
accepted (throws e) = 0

-- How many of the nine getters return for a value.
abbrev pub readers : FieldValue → ℕ
readers v =
    accepted (get_boolean v)
    + accepted (get_tinyint v)
    + accepted (get_smallint v)
    + accepted (get_integer v)
    + accepted (get_bigint v)
    + accepted (get_float v)
    + accepted (get_double v)
    + accepted (get_string v)
    + accepted (get_blob v)

readers_of :
    (t : DataType) (null : Bool) (n : ℕ) (s : Name) (b : List ℕ)
    → readers (record { type = t; is_null = null; bits = n; string_val = s; blob_val = b })
      ≡ (if null then 0 else 1)
unfolding get_boolean get_tinyint get_smallint get_integer get_bigint get_float get_double
    get_string get_blob type_code
readers_of t true n s b = refl
readers_of boolean false n s b = refl
readers_of tinyint false n s b = refl
readers_of smallint false n s b = refl
readers_of integer false n s b = refl
readers_of bigint false n s b = refl
readers_of float false n s b = refl
readers_of double false n s b = refl
readers_of char false n s b = refl
readers_of varchar false n s b = refl
readers_of text false n s b = refl
readers_of blob false n s b = refl

-- No getter returns for a null value, and exactly one of the nine does for any other.
pub readers_lem : (v : FieldValue) → readers v ≡ (if v.is_null then 0 else 1)
readers_lem v = readers_of v.type v.is_null v.bits v.string_val v.blob_val

-- A value that was made from a number of the type's width, a Boolean, a string or bytes is read back
-- by the getter of its type.
pub read_back :
    (c : Bool) (n : ℕ) (s : Name) (b : List ℕ)
    → (get_boolean (field_boolean c) ≡ returns c)
      × (get_tinyint (field_tinyint n) ≡ returns (n % 2 ^ 8))
      × (get_smallint (field_smallint n) ≡ returns (n % 2 ^ 16))
      × (get_integer (field_integer n) ≡ returns (n % 2 ^ 32))
      × (get_bigint (field_bigint n) ≡ returns (n % 2 ^ 64))
      × (get_float (field_float n) ≡ returns (n % 2 ^ 32))
      × (get_double (field_double n) ≡ returns (n % 2 ^ 64))
      × (get_string (field_char s) ≡ returns s)
      × (get_string (field_varchar s) ≡ returns s)
      × (get_string (field_text s) ≡ returns s)
      × (get_blob (field_blob b) ≡ returns b)
unfolding get_boolean get_tinyint get_smallint get_integer get_bigint get_float get_double
    get_string get_blob type_code field_boolean field_tinyint field_smallint field_integer
    field_bigint field_float field_double field_char field_varchar field_text field_blob
read_back c n s b = (
  truth c,
  ap returns (omega arith),
  ap returns (omega arith),
  ap returns (omega arith),
  ap returns (omega arith),
  ap returns (omega arith),
  ap returns (omega arith),
  refl,
  refl,
  refl,
  refl,
)
  where
    truth : (c : Bool) → get_boolean (field_boolean c) ≡ returns c
    truth true = refl
    truth false = refl

-- A number that is already cut to the width of the type makes the same value.
pub made_cut :
    (n : ℕ)
    → (field_tinyint (n % 2 ^ 8) ≡ field_tinyint n)
      × (field_smallint (n % 2 ^ 16) ≡ field_smallint n)
      × (field_integer (n % 2 ^ 32) ≡ field_integer n)
      × (field_bigint (n % 2 ^ 64) ≡ field_bigint n)
      × (field_float (n % 2 ^ 32) ≡ field_float n)
      × (field_double (n % 2 ^ 64) ≡ field_double n)
unfolding field_tinyint field_smallint field_integer field_bigint field_float field_double
made_cut n = (
  ap (λ (a : ℕ). record (field_value tinyint false) { bits = a }) (omega arith),
  ap (λ (a : ℕ). record (field_value smallint false) { bits = a }) (omega arith),
  ap (λ (a : ℕ). record (field_value integer false) { bits = a }) (omega arith),
  ap (λ (a : ℕ). record (field_value bigint false) { bits = a }) (omega arith),
  ap (λ (a : ℕ). record (field_value float false) { bits = a }) (omega arith),
  ap (λ (a : ℕ). record (field_value double false) { bits = a }) (omega arith),
)

-- Which of the values that the constructors make are null: `Null` alone.
pub made_not_null :
    (c : Bool) (n : ℕ) (s : Name) (b : List ℕ)
    → ((field_boolean c).is_null ≡ false)
      × ((field_tinyint n).is_null ≡ false)
      × ((field_smallint n).is_null ≡ false)
      × ((field_integer n).is_null ≡ false)
      × ((field_bigint n).is_null ≡ false)
      × ((field_float n).is_null ≡ false)
      × ((field_double n).is_null ≡ false)
      × ((field_char s).is_null ≡ false)
      × ((field_varchar s).is_null ≡ false)
      × ((field_text s).is_null ≡ false)
      × ((field_blob b).is_null ≡ false)
unfolding field_boolean field_tinyint field_smallint field_integer field_bigint field_float
    field_double field_char field_varchar field_text field_blob
made_not_null c n s b = (refl, refl, refl, refl, refl, refl, refl, refl, refl, refl, refl)
