-- ===== src/Page/Image/Damage.antt =====
-- A page image with one damaged byte does not verify.
use storage_prototype.Common.{
  ℕ, ◌+◌, ◌≤◌, ◌<◌, ◌≡◌, ◌≢◌, ◌⊎◌, inl, inr, sym, ap, ◌∙◌, arith, true, false, ==→eq, ne→==,
}
use storage_prototype.Memory.{Memory, byte_at}
use storage_prototype.Checksum
use storage_prototype.Checksum.{init}
use storage_prototype.Checksum.Incremental.{update-lt, update_congr}
use storage_prototype.Checksum.Detection.{
  init-lt, run_detects, update_injective, finalize_injective,
}
use storage_prototype.Page.Layout.{header}
use storage_prototype.Page.Layout.Bounds.{checksum_congr}
use storage_prototype.Page.Image.{compute_checksum, verify_checksum}
use storage_prototype.Page.Image.Laws.{after_header, after_header-lt, compute_checksum_lem}

module _ (m m' : Memory) (a : ℕ) (same : (x : ℕ) → x ≢ a → byte_at m' x ≡ byte_at m x) where
  runs_eq :
      compute_checksum m' ≡ compute_checksum m
      → Checksum.update (after_header m') m' 40 8152 ≡ Checksum.update (after_header m) m 40 8152
  runs_eq e =
      finalize_injective _ _ (update-lt _ m' 40 8152 (after_header-lt m'))
        (update-lt _ m 40 8152 (after_header-lt m))
        (sym (compute_checksum_lem m') ∙ e ∙ compute_checksum_lem m)

  damage_in_header : a < 12 → compute_checksum m' ≡ compute_checksum m → byte_at m' a ≡ byte_at m a
  unfolding after_header
  damage_in_header low e =
      run_detects init m m' 0 12 a init-lt (omega arith) (omega arith) (λ x p q. same x)
        (update_injective _ _ (λ _. 0) 0 4 (update-lt init m' 0 12 init-lt)
          (update-lt init m 0 12 init-lt)
          (update_injective _ _ m 40 8152 (after_header-lt m') (after_header-lt m) (
            sym (update_congr _ m' m 40 40 8152 (λ k p. same (40 + k) (omega arith))) ∙ runs_eq e)))

  damage_in_data :
      40 ≤ a → a < 8192 → compute_checksum m' ≡ compute_checksum m → byte_at m' a ≡ byte_at m a
  unfolding after_header
  damage_in_data lo hi e =
      run_detects (after_header m) m m' 40 8152 a (after_header-lt m) lo (omega arith)
        (λ x p q. same x)
        (sym (
            ap (λ (c : ℕ). Checksum.update (Checksum.update c (λ _. 0) 0 4) m' 40 8152)
              (update_congr init m' m 0 0 12 (λ k p. same (0 + k) (omega arith))))
          ∙ runs_eq e)

  -- Of a page that verifies, a copy in which exactly the byte at `a` differs does not, if `a` is
  -- one of the bytes 0 to 11 of the header or 40 to 8191 of the page.
  pub verify_detects :
      (a < 12) ⊎ ((40 ≤ a) × (a < 8192))
      → verify_checksum m ≡ true
      → byte_at m' a ≢ byte_at m a
      → verify_checksum m' ≡ false
  unfolding verify_checksum
  verify_detects covered good differs =
      ne→== _ _ (λ e. differs (caught covered (sym e ∙ stored ∙ ==→eq _ _ good)))
    where
      stored : (header m').checksum ≡ (header m).checksum
      stored = checksum_congr m' m (λ x p q. same x (omega arith))

      caught :
          (a < 12) ⊎ ((40 ≤ a) × (a < 8192))
          → compute_checksum m' ≡ compute_checksum m
          → byte_at m' a ≡ byte_at m a
      caught (inl low) e = damage_in_header low e
      caught (inr (lo, hi)) e = damage_in_data lo hi e
