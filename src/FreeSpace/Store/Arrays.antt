-- ===== src/FreeSpace/Store/Arrays.antt =====
-- The arrays in the file of the map: what was stored is what is listed.
use storage_prototype.Common.{
  ℕ, zero, suc, ◌+◌, ◌*◌, ◌^◌, ◌≤◌, ◌<◌, ◌≡◌, inr, refl, ap, ap₂, ◌∙◌, arith, Bool, true, false,
  ◌||◌, ◌==◌, ==_self, List, [], ◌∷◌, length, get_or,
}
use storage_prototype.Memory.{Memory, store, byte_at}
use storage_prototype.Memory.Frame.{cut_fits, load_congr, load-store_self, load-store-Apart}
use storage_prototype.FreeSpace.{is_allocated, insert_page}
use storage_prototype.FreeSpace.Sets.{is_allocated-insert_page}
use storage_prototype.FreeSpace.Store.{store_ids, id_list, byte_list, insert_all}

pub id_list_congr :
    (n i : ℕ) (b b' : Memory)
    → ((k : ℕ) → i * 4 ≤ k → k < (i + n) * 4 → b k ≡ b' k)
    → id_list n i b ≡ id_list n i b'
unfolding id_list
id_list_congr zero i b b' h = refl
id_list_congr (suc n) i b b' h =
    ap₂ (λ (p : ℕ) (ps : List ℕ). p ∷ ps) (load_congr 4 (i * 4) b b' (λ x p q. h x p (omega arith)))
      (id_list_congr n (i + 1) b b' (λ k p q. h k (omega arith) (omega arith)))

-- Writing one id leaves those behind it.
id_list-store :
    (n i j v : ℕ) (b : Memory) → j < i → id_list n i (store 4 (j * 4) v b) ≡ id_list n i b
unfolding id_list
id_list-store zero i j v b p = refl
id_list-store (suc n) i j v b p =
    ap₂ (λ (q : ℕ) (ps : List ℕ). q ∷ ps)
      (load-store-Apart 4 (i * 4) 4 (j * 4) v b (inr (omega arith)))
      (id_list-store n (i + 1) j v b (omega arith))

pub id_list-store_ids :
    (ps : List ℕ) (i : ℕ)
    → ((p : ℕ) → is_allocated ps p ≡ true → p < 2 ^ 32)
    → id_list (length ps) i (store_ids ps i) ≡ ps
unfolding id_list store_ids is_allocated
id_list-store_ids [] i fits = refl
id_list-store_ids (p ∷ ps) i fits =
    ap₂ (λ (q : ℕ) (qs : List ℕ). q ∷ qs)
      (load-store_self 4 (i * 4) p _ ∙ cut_fits 4 p (omega (arith, fits p (rw (==_self p) refl))))
      (id_list-store (length ps) (i + 1) i p (store_ids ps (i + 1)) (omega arith)
        ∙ id_list-store_ids ps (i + 1) (λ q h. fits q (ground arith)))

pub is_allocated-insert_all :
    (qs ps : List ℕ) (p : ℕ)
    → is_allocated (insert_all qs ps) p ≡ (is_allocated qs p || is_allocated ps p)
unfolding insert_all is_allocated
is_allocated-insert_all [] ps p = refl
is_allocated-insert_all (q ∷ qs) ps p =
    is_allocated-insert_all qs (insert_page q ps) p
    ∙ ap (λ (b : Bool). is_allocated qs p || b) (is_allocated-insert_page q p ps)
    ∙ swap (is_allocated qs p) (q == p) (is_allocated ps p)
  where
    swap : (a b c : Bool) → (a || (b || c)) ≡ ((b || a) || c)
    swap true true c = refl
    swap true false c = refl
    swap false true c = refl
    swap false false c = refl

pub is_allocated_nil : (p : ℕ) → is_allocated [] p ≡ false
unfolding is_allocated
is_allocated_nil p = refl

-- Against an empty set.
pub or_false : (p : ℕ) (b : Bool) → (b || is_allocated [] p) ≡ b
unfolding is_allocated
or_false p true = refl
or_false p false = refl

pub is_allocated_head : (p : ℕ) (ps : List ℕ) → is_allocated (p ∷ ps) p ≡ true
unfolding is_allocated
is_allocated_head p ps = rw (==_self p) refl

pub get_or-byte_list :
    (n i k : ℕ) (b : Memory) → k < n → get_or (byte_list n i b) k 0 ≡ byte_at b (i + k)
unfolding byte_list
get_or-byte_list zero i k b p = absurd (omega arith)
get_or-byte_list (suc n) i zero b p = ap (byte_at b) (omega arith)
get_or-byte_list (suc n) i (suc k) b p =
    get_or-byte_list n (i + 1) k b (omega arith) ∙ ap (byte_at b) (omega arith)
