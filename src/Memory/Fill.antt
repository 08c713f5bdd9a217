-- ===== src/Memory/Fill.antt =====
-- A buffer whose first `n` bytes were read from elsewhere.
use storage_prototype.Common.{
  ℕ, ◌<◌, ◌≤◌, ◌≡◌, ◌≢◌, inl, inr, refl, sym, ap, ◌∙◌, fun_ext, arith, lt-or-le,
}
use storage_prototype.Memory.{Memory, byte_at, memcpy, memset}
use storage_prototype.Memory.Frame.{memcpy_inside, memcpy_apart}

abbrev pub filled : ℕ → Memory → Memory → Memory
filled n buffer bytes = memcpy buffer 0 bytes 0 n

module _ (n : ℕ) (buffer bytes : Memory) where
  pub filled_below : (x : ℕ) → x < n → filled n buffer bytes x ≡ bytes x
  filled_below x p =
      ap (filled n buffer bytes) (omega arith)
      ∙ memcpy_inside buffer 0 bytes 0 n x p
      ∙ ap bytes (omega arith)

module _ (n : ℕ) (buffer bytes bytes' : Memory) where
  pub filled_congr :
      ((x : ℕ) → x < n → bytes' x ≡ bytes x) → filled n buffer bytes' ≡ filled n buffer bytes
  filled_congr h = fun_ext (λ x. elim (lt-or-le x n) [
    | inl p ↦ filled_below n buffer bytes' x p ∙ h x p ∙ sym (filled_below n buffer bytes x p)
    | inr p ↦
        memcpy_apart buffer 0 bytes' 0 n x (inr (omega arith))
        ∙ sym (memcpy_apart buffer 0 bytes 0 n x (inr (omega arith)))
  ])

  pub filled_same :
      (a : ℕ)
      → ((x : ℕ) → x < n → x ≢ a → byte_at bytes' x ≡ byte_at bytes x)
      → (x : ℕ) → x ≢ a
      → byte_at (filled n buffer bytes') x ≡ byte_at (filled n buffer bytes) x
  filled_same a h x ne = elim (lt-or-le x n) [
    | inl p ↦ rw (filled_below n buffer bytes' x p, filled_below n buffer bytes x p) (h x p ne)
    | inr p ↦
        rw
          (
            memcpy_apart buffer 0 bytes' 0 n x (inr (omega arith)),
            memcpy_apart buffer 0 bytes 0 n x (inr (omega arith)),
          )
          refl
  ]

  pub filled_differs :
      (a : ℕ)
      → a < n
      → byte_at bytes' a ≢ byte_at bytes a
      → byte_at (filled n buffer bytes') a ≢ byte_at (filled n buffer bytes) a
  filled_differs a p ne e =
      ne (rw (filled_below n buffer bytes' a p, filled_below n buffer bytes a p) at e)

pub memset_inside : (m : Memory) (v n x : ℕ) → x < n → memset m 0 v n x ≡ v
unfolding memset
memset_inside m v n x h = ground arith

pub memset_apart : (m : Memory) (v n x : ℕ) → n ≤ x → memset m 0 v n x ≡ m x
unfolding memset
memset_apart m v n x h = ground arith
