-- ===== src/Schema/Layout.antt =====
-- `Finalize`: where the columns are placed.
use storage_prototype.Common.{
  ℕ, ◌+◌, ◌%◌, ◌^◌, ◌≤◌, ◌<◌, ◌≡◌, ap₂, subst, refl, arith, Bool, true, ◌&&◌, not, ltb, ◌==◌, List,
  [], ◌∷◌,
}
use storage_prototype.Schema.{
  Schema, ColumnDefinition, calculate_alignment, align_offset, lay_out, is_fixed_length,
}
use storage_prototype.Schema.Alignment.{align_offset_lem, align_offset_below}

-- The columns lie one after the other from `start` to `stop`, each at the next multiple of its
-- alignment: a multiple that is less than one alignment away.
abbrev pub LaidOut : ℕ → List ColumnDefinition → ℕ → Type 0
LaidOut start [] stop = start ≡ stop
LaidOut start (c ∷ cs) stop =
    (start ≤ c.offset)
    × (c.offset < start + calculate_alignment c.data_type)
    × (c.offset % calculate_alignment c.data_type ≡ 0)
    × LaidOut (c.offset + c.fixed_size) cs stop

-- The columns differ in their offsets at most.
abbrev pub SameColumns : List ColumnDefinition → List ColumnDefinition → Type 0
SameColumns [] [] = Unit
SameColumns (c ∷ cs) (d ∷ ds) = (d ≡ record c { offset = d.offset }) × SameColumns cs ds
SameColumns [] (d ∷ ds) = ⊥
SameColumns (c ∷ cs) [] = ⊥

-- A bound on what the columns take.
abbrev pub extent : List ColumnDefinition → ℕ
extent [] = 0
extent (c ∷ cs) = c.fixed_size + 7 + extent cs

abbrev pub every_fixed : List ColumnDefinition → Bool
every_fixed [] = true
every_fixed (c ∷ cs) = is_fixed_length c && every_fixed cs

nonzero : (n : ℕ) → not (n == 0) ≡ ltb 0 n
nonzero n = ground arith

pub lay_out_lem :
    (start : ℕ) (cols : List ColumnDefinition)
    → start + extent cols + 8 ≤ 2 ^ 64
    → LaidOut start (lay_out start cols).0 (lay_out start cols).1
      × SameColumns cols (lay_out start cols).0
      × ((lay_out start cols).2 ≡ every_fixed cols)
unfolding lay_out
lay_out_lem start [] h = (refl, tt, refl)
lay_out_lem start (c ∷ cs) h =
    let (lo, hi, aligned, _) = align_offset_lem start c.data_type (omega arith) in
    let (laid, same, fixed) =
      lay_out_lem ((align_offset start c.data_type + c.fixed_size) % 2 ^ 64) cs (omega arith) in
    (
      (
        lo,
        align_offset_below start c.data_type (omega arith),
        aligned,
        subst
            (λ (n : ℕ).
              LaidOut n (lay_out ((align_offset start c.data_type + c.fixed_size) % 2 ^ 64) cs).0
                (lay_out ((align_offset start c.data_type + c.fixed_size) % 2 ^ 64) cs).1)
            (no_wrap (omega arith)) laid,
      ),
      (refl, same),
      ap₂ (λ (a b : Bool). a && b) (nonzero c.fixed_size) fixed,
    )
  where
    no_wrap : {n : ℕ} → n < 2 ^ 64 → n % 2 ^ 64 ≡ n
    no_wrap h = omega arith
