-- ===== src/Memory/Frame.antt =====
-- What a write leaves alone, and what reads back.
use native.Mathlib.Nat.{pow-suc}
use storage_prototype.Common.{
  ℕ, zero, suc, ◌+◌, ◌-◌, ◌*◌, ◌/◌, ◌%◌, ◌^◌, ◌≤◌, ◌<◌, ◌≡◌, ◌≢◌, ◌⊎◌, refl, ap, arith,
}
use storage_prototype.Memory.{Memory, byte_at, poke, store, load, memcpy}

pub poke_self : (a v : ℕ) (m : Memory) → poke a v m a ≡ v
unfolding poke
poke_self a v m = ground arith

pub poke_ne : (a v : ℕ) (m : Memory) (x : ℕ) → x ≢ a → poke a v m x ≡ m x
unfolding poke
poke_ne a v m x h = ground arith

abbrev pub Apart : ℕ → ℕ → ℕ → ℕ → Type 0
Apart a n b k = (a + n ≤ b) ⊎ (b + k ≤ a)

pub store_apart : (w o v : ℕ) (m : Memory) (x : ℕ) → (x < o) ⊎ (o + w ≤ x) → store w o v m x ≡ m x
unfolding store
store_apart zero o v m x h = refl
store_apart (suc w) o v m x h = ground (arith, store_apart w (o + 1) (v / 256) m x (omega arith))

pub load_congr_byte :
    (w o : ℕ) (m n : Memory)
    → ((x : ℕ) → o ≤ x → x < o + w → byte_at m x ≡ byte_at n x)
    → load w o m ≡ load w o n
unfolding load
load_congr_byte zero o m n h = refl
load_congr_byte (suc w) o m n h = omega (
  arith,
  h o (omega arith) (omega arith),
  load_congr_byte w (o + 1) m n (λ x p q. h x (omega arith) (omega arith)),
)

pub load_congr :
    (w o : ℕ) (m n : Memory) → ((x : ℕ) → o ≤ x → x < o + w → m x ≡ n x) → load w o m ≡ load w o n
load_congr w o m n h = load_congr_byte w o m n (λ x p q. ap (λ (b : ℕ). b % 256) (h x p q))

pub load-lt : (w o : ℕ) (m : Memory) → load w o m < 256 ^ w
unfolding load
load-lt zero o m = omega arith
load-lt (suc w) o m = omega (arith, load-lt w (o + 1) m, pow-suc 256 w)

-- What `w` bytes keep of a number, written and read byte by byte.
abbrev pub cut : ℕ → ℕ → ℕ
cut zero v = 0
cut (suc w) v = v % 256 % 256 + 256 * cut w (v / 256)

pub cut_fits : (w v : ℕ) → v < 256 ^ w → cut w v ≡ v
cut_fits zero v h = omega arith
cut_fits (suc w) v h = omega (arith, cut_fits w (v / 256) (omega (arith, pow-suc 256 w)))

-- A field reads back as what was stored, cut to its width.
pub load-store_self : (w o v : ℕ) (m : Memory) → load w o (store w o v m) ≡ cut w v
unfolding load store
load-store_self zero o v m = refl
load-store_self (suc w) o v m = omega (
  arith,
  poke_self o (v % 256) (store w (o + 1) (v / 256) m),
  load-store_self w (o + 1) (v / 256) m,
  load_congr w (o + 1) (poke o (v % 256) (store w (o + 1) (v / 256) m)) _
      (λ x p q. poke_ne o (v % 256) (store w (o + 1) (v / 256) m) x (omega arith)),
)

pub load-store-Apart :
    (w o w' o' v : ℕ) (m : Memory) → Apart o w o' w' → load w o (store w' o' v m) ≡ load w o m
load-store-Apart w o w' o' v m h =
    load_congr w o _ m (λ x p q. store_apart w' o' v m x (omega arith))

pub memcpy_apart :
    (dst : Memory) (off : ℕ) (src : Memory) (from n x : ℕ)
    → (x < off) ⊎ (off + n ≤ x)
    → memcpy dst off src from n x ≡ dst x
unfolding memcpy
memcpy_apart dst off src from n x h = ground arith

offset_back : (from off k : ℕ) → from + (off + k - off) ≡ from + k
offset_back from off k = omega arith

pub memcpy_inside :
    (dst : Memory) (off : ℕ) (src : Memory) (from n k : ℕ)
    → k < n
    → memcpy dst off src from n (off + k) ≡ src (from + k)
unfolding memcpy
memcpy_inside dst off src from n k h = ground (arith, ap src (offset_back from off k))

pub load-memcpy-Apart :
    (w o : ℕ) (dst : Memory) (off : ℕ) (src : Memory) (from n : ℕ)
    → Apart o w off n
    → load w o (memcpy dst off src from n) ≡ load w o dst
load-memcpy-Apart w o dst off src from n h =
    load_congr w o _ dst (λ x p q. memcpy_apart dst off src from n x (omega arith))
