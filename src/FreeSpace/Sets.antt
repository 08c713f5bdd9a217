-- ===== src/FreeSpace/Sets.antt =====
-- The cache and the set of allocated pages.
use storage_prototype.Common.{
  ℕ, zero, suc, ◌+◌, ◌^◌, ◌≤◌, ◌<◌, ◌≡◌, ap, refl, arith, ◌||◌, ◌==◌, List, [], ◌∷◌, length, get_or,
  ne→==, lt→leb, le→leb, lt-or-le, inl, inr, Bool-cases, eq-or-ne, ==_self, subst,
}
use storage_prototype.FreeSpace.{resize, ensure_capacity, is_allocated, insert_page}

pub length-resize : (n : ℕ) (l : List ℕ) → length (resize n l) ≡ n
unfolding resize
length-resize zero l = refl
length-resize (suc n) [] = ap suc (length-resize n [])
length-resize (suc n) (x ∷ l) = ap suc (length-resize n l)

-- What is not cut off is kept, and the new places hold 0.
pub get_or-resize :
    (n : ℕ) (l : List ℕ) (i : ℕ) → length l ≤ n → get_or (resize n l) i 0 ≡ get_or l i 0
unfolding resize
get_or-resize zero [] i h = refl
get_or-resize zero (x ∷ l) i h = absurd (omega arith)
get_or-resize (suc n) [] zero h = refl
get_or-resize (suc n) [] (suc i) h = get_or-resize n [] i (omega arith)
get_or-resize (suc n) (x ∷ l) zero h = refl
get_or-resize (suc n) (x ∷ l) (suc i) h = get_or-resize n l i (omega arith)

-- Every id but the last has room, and the cache reads as before.
pub ensure_capacity_lem :
    (page_id : ℕ) (cache : List ℕ)
    → page_id + 1 < 2 ^ 32
    → (page_id < length (ensure_capacity page_id cache))
      × (length cache ≤ length (ensure_capacity page_id cache))
      × ((i : ℕ) → get_or (ensure_capacity page_id cache) i 0 ≡ get_or cache i 0)
unfolding ensure_capacity
ensure_capacity_lem page_id cache fits = elim (lt-or-le page_id (length cache)) [
  | inl h ↦ rw (lt→leb _ _ h) (h, omega arith, λ i. refl)
  | inr h ↦ rw (le→leb _ _ h) (
    rw length-resize (ground arith),
    rw length-resize (ground arith),
    λ i. get_or-resize _ cache i (ground arith),
  )
]

pub is_allocated-insert_page :
    (p q : ℕ) (ps : List ℕ) → is_allocated (insert_page p ps) q ≡ ((p == q) || is_allocated ps q)
unfolding insert_page is_allocated
is_allocated-insert_page p q ps = elim (Bool-cases (is_allocated ps p)) [
  | inl e ↦ rw e (elim (eq-or-ne p q) [
    | inl h ↦
        subst (λ (r : ℕ). is_allocated ps r ≡ ((p == r) || is_allocated ps r)) h
          (rw (e, ==_self p) refl)
    | inr h ↦ rw (ne→== p q h) refl
  ])
  | inr e ↦ rw e refl
]
