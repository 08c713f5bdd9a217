-- ===== src/Tuple/Header.antt =====
-- include/tuple/tuple_header.h, src/tuple/tuple_header.cpp: the null bitmap and the offsets of the
-- variable-length fields. An assertion that fails is `none`.
use storage_prototype.Common.{
  ℕ, zero, suc, ◌+◌, ◌-◌, ◌*◌, ◌/◌, ◌%◌, ◌^◌, bit_and, bit_or, Bool, true, false, not, ltb, leb,
  ◌==◌, if◌then◌else◌, Option, none, some, List, [], ◌∷◌, length, get_elem?, get_or, set, replicate,
}
use storage_prototype.Memory.{Memory, store, load}
pub mod Nulls
pub mod Image
pub mod Offsets

pub record TupleHeader : Type 0 where
  pub null_bitmap : ℕ
  pub field_count : ℕ
  pub var_field_count : ℕ
  pub var_offsets : List ℕ

pub tuple_header : ℕ → ℕ → Option TupleHeader
tuple_header field_count var_field_count =
    if leb field_count 64
    then some (record {
      null_bitmap = 0;
      field_count = field_count;
      var_field_count = var_field_count;
      var_offsets = replicate var_field_count 0;
    })
    else none

-- 1ULL << field_index, for the field indices below 64 that the constructor leaves.
abbrev pub field_mask : ℕ → ℕ
field_mask field_index = 2 ^ field_index

pub set_field_null : TupleHeader → ℕ → Bool → Option TupleHeader
set_field_null h field_index is_null =
    if ltb field_index h.field_count
    then some (record h {
      null_bitmap =
          if is_null
          then bit_or h.null_bitmap (field_mask field_index)
          else bit_and h.null_bitmap (2 ^ 64 - 1 - field_mask field_index);
    })
    else none

pub is_field_null : TupleHeader → ℕ → Option Bool
is_field_null h field_index =
    if ltb field_index h.field_count
    then some (not (bit_and h.null_bitmap (field_mask field_index) == 0))
    else none

pub set_variable_length_offset : TupleHeader → ℕ → ℕ → Option TupleHeader
set_variable_length_offset h var_field_index offset =
    if ltb var_field_index h.var_field_count
    then some (record h { var_offsets = set h.var_offsets var_field_index offset })
    else none

pub get_variable_length_offset : TupleHeader → ℕ → Option ℕ
get_variable_length_offset h var_field_index =
    if ltb var_field_index h.var_field_count then get_elem? h.var_offsets var_field_index else none

pub calculate_header_size : ℕ → ℕ
calculate_header_size var_field_count = let size = 8 + var_field_count * 2 in (size + 7) / 8 * 8

pub get_header_size : TupleHeader → ℕ
get_header_size h = calculate_header_size h.var_field_count

-- `memcpy` of an array of `uint16_t` to offset `o` of the buffer, and from there.
pub store_offsets : ℕ → List ℕ → Memory → Memory
store_offsets o [] buffer = buffer
store_offsets o (v ∷ vs) buffer = store 2 o v (store_offsets (o + 2) vs buffer)

pub load_offsets : ℕ → ℕ → Memory → List ℕ
load_offsets zero o buffer = []
load_offsets (suc n) o buffer = load 2 o buffer ∷ load_offsets n (o + 2) buffer

pub serialize_to : TupleHeader → Memory → Memory
serialize_to h buffer = store 8 0 h.null_bitmap (store_offsets 8 h.var_offsets buffer)

pub deserialize_from : Memory → ℕ → ℕ → Option TupleHeader
deserialize_from buffer field_count var_field_count =
    if leb field_count 64
    then some (record {
      null_bitmap = load 8 0 buffer;
      field_count = field_count;
      var_field_count = var_field_count;
      var_offsets = load_offsets var_field_count 8 buffer;
    })
    else none
