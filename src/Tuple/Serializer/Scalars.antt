-- ===== src/Tuple/Serializer/Scalars.antt =====
-- A value of fixed width that is written is read back.
use storage_prototype.Common.{
  ℕ, ◌+◌, ◌^◌, ◌≤◌, ◌<◌, ◌≡◌, ◌⊎◌, ◌∙◌, refl, arith, ap, sym, subst, Bool, true, false, not, ◌==◌,
  [],
}
use storage_prototype.Memory.{Memory, store, load}
use storage_prototype.Memory.Frame.{cut, cut_fits, load-store_self, load_congr, store_apart}
use storage_prototype.Schema.{
  DataType, boolean, tinyint, smallint, integer, bigint, float, double, char, varchar, text, blob,
}
use storage_prototype.Tuple.Field.{
  FieldValue, Read, returns, field_boolean, field_tinyint, field_smallint, field_integer,
  field_bigint, field_float, field_double, get_tinyint, get_smallint, get_integer, get_bigint,
  get_float, get_double,
}
use storage_prototype.Tuple.Field.Reads.{read_back, made_cut, made_not_null}
use storage_prototype.Tuple.Serializer.{
  Result, ok, ◌>>=◌, value_of, bool_byte, write_scalar, read_scalar,
}

-- The bytes from `a` on and below `b` are the same.
abbrev pub Agree : ℕ → ℕ → Memory → Memory → Type 0
Agree a b m m' = (x : ℕ) → a ≤ x → x < b → m x ≡ m' x

-- A write at `o` that stays within `n` bytes, and after which `back` gives the value.
pub record Wrote (v : FieldValue) (o n : ℕ) (m : Memory) (result : Result Memory)
    (back : Memory → Result FieldValue) : Type 0 where
  pub after : Memory
  pub returned : result ≡ ok after
  pub outside : (x : ℕ) → (x < o) ⊎ (o + n ≤ x) → after x ≡ m x
  pub reads : (m' : Memory) → Agree o (o + n) m' after → back m' ≡ ok v

-- A number that the getter reads, in a field of `w` bytes.
number-Wrote :
    (w o n k c : ℕ) (m : Memory) (get : FieldValue → Read ℕ) (make : ℕ → FieldValue)
    → get (make k) ≡ returns c
    → make c ≡ make k
    → c < 256 ^ w
    → w ≤ n
    → Wrote
        (make k)
        o
        n
        m
        (value_of (get (make k)) >>= (λ val. ok (store w o val m)))
        (λ m'. ok (make (load w o m')))
number-Wrote w o n k c m get make got made small fits = record {
  after = store w o c m;
  returned = ap (λ (r : Read ℕ). value_of r >>= (λ val. ok (store w o val m))) got;
  outside = λ x h. store_apart w o c m x (omega arith);
  reads = λ m' same.
      ap (λ (a : ℕ). ok (make a))
        (load_congr w o m' (store w o c m) (λ x p q. same x p (omega arith))
          ∙ load-store_self w o c m
          ∙ cut_fits w c small)
      ∙ ap ok made;
}

-- The values that a column of fixed width holds, in `n` bytes.
unfoldable pub HoldsScalar : DataType → ℕ → FieldValue → Type 0
HoldsScalar boolean n v = (b : Bool) × (v ≡ field_boolean b) × (1 ≤ n)
HoldsScalar tinyint n v = (k : ℕ) × (v ≡ field_tinyint k) × (1 ≤ n)
HoldsScalar smallint n v = (k : ℕ) × (v ≡ field_smallint k) × (2 ≤ n)
HoldsScalar integer n v = (k : ℕ) × (v ≡ field_integer k) × (4 ≤ n)
HoldsScalar bigint n v = (k : ℕ) × (v ≡ field_bigint k) × (8 ≤ n)
HoldsScalar float n v = (k : ℕ) × (v ≡ field_float k) × (4 ≤ n)
HoldsScalar double n v = (k : ℕ) × (v ≡ field_double k) × (8 ≤ n)
HoldsScalar char n v = ⊥
HoldsScalar varchar n v = ⊥
HoldsScalar text n v = ⊥
HoldsScalar blob n v = ⊥

abbrev WroteScalar : DataType → ℕ → ℕ → Memory → FieldValue → Type 0
WroteScalar t n o m v = Wrote v o n m (write_scalar t v o m) (read_scalar t o)

module _ (n o : ℕ) (m : Memory) where
  boolean-Wrote : (b : Bool) → 1 ≤ n → WroteScalar boolean n o m (field_boolean b)
  unfolding write_scalar read_scalar
  boolean-Wrote b h = record {
    after = store 1 o (bool_byte b) m;
    returned =
        ap (λ (r : Read Bool). value_of r >>= (λ val. ok (store 1 o (bool_byte val) m)))
          (read_back b 0 [] []).0;
    outside = λ x p. store_apart 1 o (bool_byte b) m x (omega arith);
    reads = λ m' same.
        ap (λ (a : ℕ). ok (field_boolean (not (a == 0))))
          (load_congr 1 o m' (store 1 o (bool_byte b) m) (λ x p q. same x p (omega arith))
            ∙ load-store_self 1 o (bool_byte b) m)
        ∙ ap (λ (a : Bool). ok (field_boolean a)) (truth b);
  }
    where
      truth : (b : Bool) → not (cut 1 (bool_byte b) == 0) ≡ b
      truth true = refl
      truth false = refl

  -- A value that a column of a type with fixed width can hold is written within the column, and is
  -- what is read back as long as the column's bytes stay.
  pub write_scalar-Wrote :
      (t : DataType) (v : FieldValue) → HoldsScalar t n v → WroteScalar t n o m v
  unfolding HoldsScalar write_scalar read_scalar
  write_scalar-Wrote boolean v (b, e, h) =
      subst (WroteScalar boolean n o m) (sym e) (boolean-Wrote b h)
  write_scalar-Wrote tinyint v (k, e, h) = subst (WroteScalar tinyint n o m) (sym e) (
      number-Wrote 1 o n k _ m get_tinyint field_tinyint (read_back true k [] []).1 (made_cut k).0
        (omega arith) h)
  write_scalar-Wrote smallint v (k, e, h) = subst (WroteScalar smallint n o m) (sym e) (
      number-Wrote 2 o n k _ m get_smallint field_smallint (read_back true k [] []).2 (made_cut k).1
        (omega arith) h)
  write_scalar-Wrote integer v (k, e, h) = subst (WroteScalar integer n o m) (sym e) (
      number-Wrote 4 o n k _ m get_integer field_integer (read_back true k [] []).3 (made_cut k).2
        (omega arith) h)
  write_scalar-Wrote bigint v (k, e, h) = subst (WroteScalar bigint n o m) (sym e) (
      number-Wrote 8 o n k _ m get_bigint field_bigint (read_back true k [] []).4 (made_cut k).3
        (omega arith) h)
  write_scalar-Wrote float v (k, e, h) = subst (WroteScalar float n o m) (sym e) (
      number-Wrote 4 o n k _ m get_float field_float (read_back true k [] []).5 (made_cut k).4
        (omega arith) h)
  write_scalar-Wrote double v (k, e, h) = subst (WroteScalar double n o m) (sym e) (
      number-Wrote 8 o n k _ m get_double field_double (read_back true k [] []).6 (made_cut k).5
        (omega arith) h)
  write_scalar-Wrote char v h = elim h [ ]
  write_scalar-Wrote varchar v h = elim h [ ]
  write_scalar-Wrote text v h = elim h [ ]
  write_scalar-Wrote blob v h = elim h [ ]

-- A value that is made without null is not null.
pub made_from : {u : FieldValue} (v : FieldValue) → v ≡ u → u.is_null ≡ false → v.is_null ≡ false
made_from v e h = ap (λ (w : FieldValue). w.is_null) e ∙ h

-- Such a value is not null.
pub HoldsScalar-is_null :
    (t : DataType) (n : ℕ) (v : FieldValue) → HoldsScalar t n v → v.is_null ≡ false
unfolding HoldsScalar
HoldsScalar-is_null boolean n v (b, e, h) = made_from v e (made_not_null b 0 [] []).0
HoldsScalar-is_null tinyint n v (k, e, h) = made_from v e (made_not_null true k [] []).1
HoldsScalar-is_null smallint n v (k, e, h) = made_from v e (made_not_null true k [] []).2
HoldsScalar-is_null integer n v (k, e, h) = made_from v e (made_not_null true k [] []).3
HoldsScalar-is_null bigint n v (k, e, h) = made_from v e (made_not_null true k [] []).4
HoldsScalar-is_null float n v (k, e, h) = made_from v e (made_not_null true k [] []).5
HoldsScalar-is_null double n v (k, e, h) = made_from v e (made_not_null true k [] []).6
HoldsScalar-is_null char n v h = elim h [ ]
HoldsScalar-is_null varchar n v h = elim h [ ]
HoldsScalar-is_null text n v h = elim h [ ]
HoldsScalar-is_null blob n v h = elim h [ ]
