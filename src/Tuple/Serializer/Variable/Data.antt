-- ===== src/Tuple/Serializer/Variable/Data.antt =====
-- One value of variable length: its length and its bytes are written, and read back.
use storage_prototype.Common.{
  ℕ, ◌+◌, ◌^◌, ◌≤◌, ◌<◌, ◌≡◌, ◌⊎◌, ◌∙◌, refl, arith, ap, ap₂, sym, true, false, le→leb, List, [],
  ◌∷◌, length,
}
use storage_prototype.Memory.{Memory, store, load}
use storage_prototype.Memory.Frame.{cut_fits, load-store_self, load_congr, store_apart}
use storage_prototype.Schema.{
  DataType, boolean, tinyint, smallint, integer, bigint, float, double, char, varchar, text, blob,
  Name,
}
use storage_prototype.Tuple.Field.{
  FieldValue, Read, field_char, field_varchar, field_text, field_blob, get_string, get_blob,
}
use storage_prototype.Tuple.Field.Reads.{read_back, made_not_null}
use storage_prototype.Tuple.Serializer.{
  Result, ok, ◌>>=◌, value_of, require-true, store_bytes, load_bytes, uint16, size64, Progress,
}
use storage_prototype.Tuple.Serializer.Scalars.{Agree, made_from}
use storage_prototype.Tuple.Serializer.Bytes.{
  Bytes, store_bytes_apart, load_bytes_congr, load_bytes-store_bytes,
}
use storage_prototype.Tuple.Serializer.Variable.{write_data, write_variable, read_data}

-- The values of a column of variable length: strings and bytes of a length of 16 bits.
unfoldable pub HoldsData : DataType → FieldValue → Type 0
HoldsData char v = (s : Name) × (v ≡ field_char s) × (length s < 2 ^ 16) × Bytes s
HoldsData varchar v = (s : Name) × (v ≡ field_varchar s) × (length s < 2 ^ 16) × Bytes s
HoldsData text v = (s : Name) × (v ≡ field_text s) × (length s < 2 ^ 16) × Bytes s
HoldsData blob v = (s : List ℕ) × (v ≡ field_blob s) × (length s < 2 ^ 16) × Bytes s
HoldsData t v = ⊥

-- The bytes that a value of variable length takes.
abbrev pub data_size : FieldValue → ℕ
data_size v = 2 + length v.string_val + length v.blob_val

-- The value `v` is written at the current offset, and `back` reads it from there.
pub record DataWritten (v : FieldValue) (p : Progress) (result : Result Progress)
    (back : Memory → List FieldValue) : Type 0 where
  pub p' : Progress
  pub returned : result ≡ ok p'
  pub same_header : p'.header ≡ p.header
  pub ends : p'.current_offset ≡ p.current_offset + data_size v
  pub outside :
      (x : ℕ) → (x < p.current_offset) ⊎ (p'.current_offset ≤ x) → p'.buffer x ≡ p.buffer x
  pub reads : (m : Memory) → Agree p.current_offset p'.current_offset m p'.buffer → back m ≡ v ∷ []

module _ (s : List ℕ) (v : FieldValue) (size : ℕ) (p : Progress) (small : length s < 2 ^ 16)
    (bytes : Bytes s) (sized : data_size v ≡ 2 + length s)
    (room : p.current_offset + data_size v ≤ size) (limit : size < 2 ^ 16) where
  abbrev o : ℕ
  o = p.current_offset

  abbrev with_length : Memory
  with_length = store 2 o (length s) p.buffer

  abbrev with_data : Memory
  with_data = store_bytes (length s) (o + 2) s with_length

  length_kept : uint16 (length s) ≡ length s
  length_kept = omega (arith, small)

  no_wrap : size64 (o + 2 + length s) ≡ o + 2 + length s
  no_wrap = omega (arith, room, limit, sized)

  no_wrap_start : size64 (o + 2) ≡ o + 2
  no_wrap_start = omega (arith, room, limit, sized)

  abbrev written : ℕ → ℕ → ℕ → Progress
  written n start end = record p {
    buffer = store_bytes n start s (store 2 o n p.buffer);
    current_offset = end;
  }

  write_data_lem : write_data size s p ≡ ok (written (length s) (o + 2) (o + 2 + length s))
  unfolding write_data
  write_data_lem =
      require-true _ _ (le→leb _ _ (omega (arith, length_kept, room, limit, sized)))
      ∙ ap (λ (n : ℕ). ok (written n (size64 (o + 2)) (size64 (o + 2 + n)))) length_kept
      ∙ ap₂ (λ (a b : ℕ). ok (written (length s) a b)) no_wrap_start no_wrap

  module _ (m : Memory) (same : Agree o (o + 2 + length s) m with_data) where
    length_back : load 2 o m ≡ length s
    length_back =
        load_congr 2 o m with_length (λ x a b.
          same x a (omega arith)
          ∙ store_bytes_apart (length s) (o + 2) s with_length x (omega arith))
        ∙ load-store_self 2 o (length s) p.buffer
        ∙ cut_fits 2 (length s) small

    bytes_back : load_bytes (load 2 o m) (o + 2) m ≡ s
    bytes_back =
        ap (λ (n : ℕ). load_bytes n (o + 2) m) length_back
        ∙ load_bytes_congr (length s) (o + 2) m with_data (λ x a b. same x (omega arith) b)
        ∙ load_bytes-store_bytes (o + 2) s with_length bytes

  data-DataWritten :
      (make : List ℕ → FieldValue) (get : Read (List ℕ))
      → value_of get ≡ ok s
      → v ≡ make s
      → DataWritten v p
          (value_of get >>= (λ b. write_data size b p))
          (λ m. make (load_bytes (load 2 o m) (o + 2) m) ∷ [])
  data-DataWritten make get got made = record {
    p' = written (length s) (o + 2) (o + 2 + length s);
    returned = ap (λ (r : Result (List ℕ)). r >>= (λ b. write_data size b p)) got ∙ write_data_lem;
    same_header = refl;
    ends = omega (arith, sized);
    outside = λ x h.
        store_bytes_apart (length s) (o + 2) s with_length x (omega arith)
        ∙ store_apart 2 o (length s) p.buffer x (omega arith);
    reads = λ m same.
        ap (λ (t : List ℕ). make t ∷ []) (bytes_back m same)
        ∙ ap (λ (u : FieldValue). u ∷ []) (sym made);
  }

-- A value that a column of variable length can hold is written, and is what is read back.
pub write_variable-DataWritten :
    (t : DataType) (v : FieldValue) (size : ℕ) (p : Progress)
    → HoldsData t v
    → p.current_offset + data_size v ≤ size
    → size < 2 ^ 16
    → DataWritten v p (write_variable t size v p) (read_data t p.current_offset)
unfolding HoldsData write_variable read_data field_char field_varchar field_text field_blob
write_variable-DataWritten char v size p (s, e, small, bytes) room limit =
    data-DataWritten s v size p small bytes (ap data_size e ∙ omega arith) room limit field_char
      (get_string v)
      (ap (λ (u : FieldValue). value_of (get_string u)) e ∙ ap value_of (read_back true 0 s []).7) e
write_variable-DataWritten varchar v size p (s, e, small, bytes) room limit =
    data-DataWritten s v size p small bytes (ap data_size e ∙ omega arith) room limit field_varchar
      (get_string v)
      (ap (λ (u : FieldValue). value_of (get_string u)) e ∙ ap value_of (read_back true 0 s []).8) e
write_variable-DataWritten text v size p (s, e, small, bytes) room limit =
    data-DataWritten s v size p small bytes (ap data_size e ∙ omega arith) room limit field_text
      (get_string v)
      (ap (λ (u : FieldValue). value_of (get_string u)) e ∙ ap value_of (read_back true 0 s []).9) e
write_variable-DataWritten blob v size p (s, e, small, bytes) room limit =
    data-DataWritten s v size p small bytes (ap data_size e ∙ omega arith) room limit field_blob
      (get_blob v)
      (ap (λ (u : FieldValue). value_of (get_blob u)) e ∙ ap value_of (read_back true 0 [] s).10) e
write_variable-DataWritten boolean v size p h room limit = elim h [ ]
write_variable-DataWritten tinyint v size p h room limit = elim h [ ]
write_variable-DataWritten smallint v size p h room limit = elim h [ ]
write_variable-DataWritten integer v size p h room limit = elim h [ ]
write_variable-DataWritten bigint v size p h room limit = elim h [ ]
write_variable-DataWritten float v size p h room limit = elim h [ ]
write_variable-DataWritten double v size p h room limit = elim h [ ]

pub HoldsData-is_null : (t : DataType) (v : FieldValue) → HoldsData t v → v.is_null ≡ false
unfolding HoldsData
HoldsData-is_null char v (s, e, small, bytes) = made_from v e (made_not_null true 0 s []).7
HoldsData-is_null varchar v (s, e, small, bytes) = made_from v e (made_not_null true 0 s []).8
HoldsData-is_null text v (s, e, small, bytes) = made_from v e (made_not_null true 0 s []).9
HoldsData-is_null blob v (s, e, small, bytes) = made_from v e (made_not_null true 0 [] s).10
HoldsData-is_null boolean v h = elim h [ ]
HoldsData-is_null tinyint v h = elim h [ ]
HoldsData-is_null smallint v h = elim h [ ]
HoldsData-is_null integer v h = elim h [ ]
HoldsData-is_null bigint v h = elim h [ ]
HoldsData-is_null float v h = elim h [ ]
HoldsData-is_null double v h = elim h [ ]
