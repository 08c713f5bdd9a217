-- ===== src/Tuple/Serializer/Bytes.antt =====
-- The bytes of strings in a buffer.
use storage_prototype.Common.{
  ℕ, zero, suc, ◌+◌, ◌%◌, ◌≤◌, ◌<◌, ◌≡◌, ◌≢◌, ◌⊎◌, ◌∙◌, refl, arith, ap, ap₂, List, [], ◌∷◌, length,
}
use storage_prototype.Memory.{Memory}
use storage_prototype.Memory.Frame.{poke_self, poke_ne}
use storage_prototype.Tuple.Serializer.{store_bytes, load_bytes}
use storage_prototype.Tuple.Serializer.Scalars.{Agree}

abbrev pub Bytes : List ℕ → Type 0
Bytes [] = Unit
Bytes (c ∷ s) = (c < 256) × Bytes s

pub store_bytes_apart :
    (n o : ℕ) (s : List ℕ) (m : Memory) (x : ℕ)
    → (x < o) ⊎ (o + n ≤ x)
    → store_bytes n o s m x ≡ m x
unfolding store_bytes
store_bytes_apart zero o s m x h = refl
store_bytes_apart (suc n) o [] m x h = refl
store_bytes_apart (suc n) o (c ∷ s) m x h =
    poke_ne o (c % 256) (store_bytes n (o + 1) s m) x (omega arith)
    ∙ store_bytes_apart n (o + 1) s m x (omega arith)

pub load_bytes_congr :
    (n o : ℕ) (m m' : Memory) → Agree o (o + n) m m' → load_bytes n o m ≡ load_bytes n o m'
unfolding load_bytes
load_bytes_congr zero o m m' h = refl
load_bytes_congr (suc n) o m m' h =
    ap₂ (λ (c : ℕ) (s : List ℕ). c % 256 ∷ s) (h o (omega arith) (omega arith))
      (load_bytes_congr n (o + 1) m m' (λ x p q. h x (omega arith) (omega arith)))

-- A string that is written is read back from its bytes.
pub load_bytes-store_bytes :
    (o : ℕ) (s : List ℕ) (m : Memory)
    → Bytes s
    → load_bytes (length s) o (store_bytes (length s) o s m) ≡ s
unfolding load_bytes store_bytes
load_bytes-store_bytes o [] m h = refl
load_bytes-store_bytes o (c ∷ s) m (h, hs) =
    ap₂ (λ (d : ℕ) (t : List ℕ). d ∷ t)
      (ap (λ (d : ℕ). d % 256) (poke_self o (c % 256) (store_bytes (length s) (o + 1) s m))
        ∙ omega arith)
      (load_bytes_congr (length s) (o + 1) _ (store_bytes (length s) (o + 1) s m)
          (λ x p q. poke_ne o (c % 256) (store_bytes (length s) (o + 1) s m) x (omega arith))
        ∙ load_bytes-store_bytes (o + 1) s m hs)

pub store_bytes_cons :
    (n o c : ℕ) (s : List ℕ) (m : Memory)
    → (store_bytes (suc n) o (c ∷ s) m o ≡ c % 256)
      × ((x : ℕ) → x ≢ o → store_bytes (suc n) o (c ∷ s) m x ≡ store_bytes n (o + 1) s m x)
unfolding store_bytes
store_bytes_cons n o c s m = (
  poke_self o (c % 256) (store_bytes n (o + 1) s m),
  λ x h. poke_ne o (c % 256) (store_bytes n (o + 1) s m) x h,
)
