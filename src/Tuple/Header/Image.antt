-- ===== src/Tuple/Header/Image.antt =====
-- `SerializeTo` and `DeserializeFrom`.
use storage_prototype.Common.{
  ℕ, zero, suc, ◌+◌, ◌*◌, ◌%◌, ◌^◌, ◌≤◌, ◌<◌, ◌≡◌, ◌⊎◌, ◌∙◌, refl, arith, ap, ap₂, sym, le→leb,
  choose_true, some, List, [], ◌∷◌, length, replicate,
}
use storage_prototype.Memory.{Memory, store, load}
use storage_prototype.Memory.Frame.{cut_fits, load-store_self, load-store-Apart, store_apart}
use storage_prototype.Tuple.Header.{
  TupleHeader, calculate_header_size, get_header_size, store_offsets, load_offsets, serialize_to,
  deserialize_from,
}
use storage_prototype.Tuple.Header.Nulls.{IsHeader}

abbrev pub EachFits : List ℕ → Type 0
EachFits [] = Unit
EachFits (v ∷ vs) = (v < 2 ^ 16) × EachFits vs

store_offsets_apart :
    (o : ℕ) (vs : List ℕ) (m : Memory) (x : ℕ)
    → (x < o) ⊎ (o + 2 * length vs ≤ x)
    → store_offsets o vs m x ≡ m x
unfolding store_offsets
store_offsets_apart o [] m x h = refl
store_offsets_apart o (v ∷ vs) m x h =
    store_apart 2 o v (store_offsets (o + 2) vs m) x (omega arith)
    ∙ store_offsets_apart (o + 2) vs m x (omega arith)

load_offsets_below :
    (n o b v : ℕ) (m : Memory) → b + 2 ≤ o → load_offsets n o (store 2 b v m) ≡ load_offsets n o m
unfolding load_offsets
load_offsets_below zero o b v m h = refl
load_offsets_below (suc n) o b v m h =
    ap₂ (λ (x : ℕ) (xs : List ℕ). x ∷ xs) (load-store-Apart 2 o 2 b v m (omega arith))
      (load_offsets_below n (o + 2) b v m (omega arith))

load_offsets_after :
    (n o v : ℕ) (m : Memory) → 8 ≤ o → load_offsets n o (store 8 0 v m) ≡ load_offsets n o m
unfolding load_offsets
load_offsets_after zero o v m h = refl
load_offsets_after (suc n) o v m h =
    ap₂ (λ (x : ℕ) (xs : List ℕ). x ∷ xs) (load-store-Apart 2 o 8 0 v m (omega arith))
      (load_offsets_after n (o + 2) v m (omega arith))

load_offsets-store_offsets :
    (o : ℕ) (vs : List ℕ) (m : Memory)
    → EachFits vs
    → load_offsets (length vs) o (store_offsets o vs m) ≡ vs
unfolding load_offsets store_offsets
load_offsets-store_offsets o [] m h = refl
load_offsets-store_offsets o (v ∷ vs) m (h, hs) =
    ap₂ (λ (x : ℕ) (xs : List ℕ). x ∷ xs)
      (load-store_self 2 o v (store_offsets (o + 2) vs m) ∙ cut_fits 2 v h)
      (load_offsets_below (length vs) (o + 2) o v (store_offsets (o + 2) vs m) (omega arith)
        ∙ load_offsets-store_offsets (o + 2) vs m hs)

-- A header that is written to a buffer is read back from it, given the counts it was made with, and
-- writing it changes no byte past the header's size.
pub deserialize_from-serialize_to :
    (h : TupleHeader) (buffer : Memory)
    → IsHeader h
    → EachFits h.var_offsets
    → (deserialize_from (serialize_to h buffer) h.field_count h.var_field_count ≡ some h)
      × ((x : ℕ) → get_header_size h ≤ x → serialize_to h buffer x ≡ buffer x)
unfolding deserialize_from serialize_to get_header_size calculate_header_size
deserialize_from-serialize_to h buffer w fits = (
  choose_true _ _ (le→leb _ _ w.few_fields)
      ∙ (λ i. some (record h { null_bitmap = bitmap i; var_offsets = offsets i })),
  λ x p.
      store_apart 8 0 h.null_bitmap (store_offsets 8 h.var_offsets buffer) x (omega arith)
      ∙ store_offsets_apart 8 h.var_offsets buffer x (omega (arith, w.offsets)),
)
  where
    bitmap :
        load 8 0 (store 8 0 h.null_bitmap (store_offsets 8 h.var_offsets buffer)) ≡ h.null_bitmap
    bitmap =
        load-store_self 8 0 h.null_bitmap (store_offsets 8 h.var_offsets buffer)
        ∙ cut_fits 8 h.null_bitmap w.bitmap_fits

    offsets :
        load_offsets h.var_field_count 8
          (store 8 0 h.null_bitmap (store_offsets 8 h.var_offsets buffer))
        ≡ h.var_offsets
    offsets =
        load_offsets_after h.var_field_count 8 h.null_bitmap (store_offsets 8 h.var_offsets buffer)
          (omega arith)
        ∙ ap (λ (n : ℕ). load_offsets n 8 (store_offsets 8 h.var_offsets buffer)) (sym w.offsets)
        ∙ load_offsets-store_offsets 8 h.var_offsets buffer fits

-- The header's size is the first multiple of 8 from the bitmap and the offsets on.
pub calculate_header_size_lem :
    (n : ℕ)
    → (8 + 2 * n ≤ calculate_header_size n)
      × (calculate_header_size n < 8 + 2 * n + 8)
      × (calculate_header_size n % 8 ≡ 0)
unfolding calculate_header_size
calculate_header_size_lem n = (omega arith, omega arith, omega arith)

-- A header without offsets takes eight bytes.
pub small_header : calculate_header_size 0 ≡ 8
unfolding calculate_header_size
small_header = refl

pub get_header_size_at :
    (h : TupleHeader) (n : ℕ) → h.var_field_count ≡ n → get_header_size h ≡ calculate_header_size n
unfolding get_header_size
get_header_size_at h n e = ap calculate_header_size e

pub EachFits-replicate : (n v : ℕ) → v < 2 ^ 16 → EachFits (replicate n v)
EachFits-replicate zero v h = tt
EachFits-replicate (suc n) v h = (h, EachFits-replicate n v h)

-- The header read back from a buffer, with the counts as they were given.
pub header_back :
    (h : TupleHeader) (buffer : Memory) (n k : ℕ)
    → IsHeader h
    → EachFits h.var_offsets
    → h.field_count ≡ n
    → h.var_field_count ≡ k
    → deserialize_from (serialize_to h buffer) n k ≡ some h
header_back h buffer n k w fits e f =
    ap₂ (λ (a b : ℕ). deserialize_from (serialize_to h buffer) a b) (sym e) (sym f)
    ∙ (deserialize_from-serialize_to h buffer w fits).0
