-- ===== src/FreeSpace/Store/Chunks.antt =====
-- `WriteToDisk` as a sequence of writes: when it returns true, each of them can be read.
use storage_prototype.Common.{
  ℕ, ◌+◌, ◌≤◌, ◌≡◌, inl, inr, refl, sym, ap, subst, arith, Bool, true, ==→eq, ==_self, Bool-cases,
  Option, none, some, List, [], ◌∷◌,
}
use storage_prototype.Memory.{Memory}
use storage_prototype.Files.{Files, Reads, IsLawful}
use storage_prototype.Schema.{Name}
use storage_prototype.FreeSpace.{FreeSpaceMap}
use storage_prototype.FreeSpace.Store.{
  Chunk, in_full, write_chunks, write_to_disk, chunks, end_offset,
}

-- The chunks lie one behind the other, from `o` to at most `e`.
unfoldable pub InOrder : ℕ → List Chunk → ℕ → Type 0
InOrder o [] e = o ≤ e
InOrder o (c ∷ cs) e = (o ≤ c.place) × InOrder (c.place + c.size) cs e

in_bounds : (cs : List Chunk) (o e : ℕ) → InOrder o cs e → o ≤ e
unfolding InOrder
in_bounds [] o e order = order
in_bounds (c ∷ cs) o e (first, order) = omega (arith, in_bounds cs (c.place + c.size) e order)

pub in_full-true : (w : Option ℕ) (n : ℕ) → in_full w n ≡ true → w ≡ some n
in_full-true none n e = absurd (cc (e))
in_full-true (some k) n e = ap some (==→eq k n e)

module _ (F : Files) (L : IsLawful F) where
  open F use {Disk, open_file, close_file, pwrite, ftruncate, fsync}

  unfoldable pub AllRead : Disk → ℕ → List Chunk → Type 0
  AllRead disk fd [] = Unit
  AllRead disk fd (c ∷ cs) = Reads F disk fd c.size c.place c.content × AllRead disk fd cs

  write_chunks_head :
      (disk : Disk) (fd : ℕ) (c : Chunk) (cs : List Chunk)
      → (write_chunks F disk fd (c ∷ cs)).1 ≡ true
      → ((pwrite disk fd c.content c.size c.place).1 ≡ some c.size)
        × (write_chunks F disk fd (c ∷ cs)
            ≡ write_chunks F (pwrite disk fd c.content c.size c.place).0 fd cs)
  unfolding write_chunks
  write_chunks_head disk fd c cs e =
      elim (Bool-cases (in_full (pwrite disk fd c.content c.size c.place).1 c.size)) [
        | inl full ↦ (in_full-true _ _ full, rw full refl)
        | inr short ↦ absurd (cc (rw short at e))
      ]

  write_chunks-true :
      (cs : List Chunk) (disk : Disk) (fd : ℕ)
      → ((d : Disk) (b : Memory) (n offset : ℕ) → (pwrite d fd b n offset).1 ≡ some n)
      → (write_chunks F disk fd cs).1 ≡ true
  unfolding write_chunks
  write_chunks-true [] disk fd writes = refl
  write_chunks-true (c ∷ cs) disk fd writes =
      rw (writes disk c.content c.size c.place, ==_self c.size)
        (write_chunks-true cs (pwrite disk fd c.content c.size c.place).0 fd writes)

  -- What lies before the first chunk can still be read.
  write_chunks_before :
      (cs : List Chunk) (disk : Disk) (fd o e : ℕ)
      → InOrder o cs e
      → (write_chunks F disk fd cs).1 ≡ true
      → (n offset : ℕ) (b : Memory) → offset + n ≤ o
      → Reads F disk fd n offset b
      → Reads F (write_chunks F disk fd cs).0 fd n offset b
  unfolding InOrder
  write_chunks_before [] disk fd o e order done n offset b p r = unfold write_chunks in r
  write_chunks_before (c ∷ cs) disk fd o e (first, order) done n offset b p r =
      let (full, same) = write_chunks_head disk fd c cs done in
      rw same (
        write_chunks_before cs (pwrite disk fd c.content c.size c.place).0 fd (c.place + c.size) e
          order (rw same at done) n offset b (omega arith)
          (L.pread-pwrite-Apart disk fd c.content c.size c.place full n offset b (inl (omega arith))
            r))

  write_chunks-AllRead :
      (cs : List Chunk) (disk : Disk) (fd o e : ℕ)
      → InOrder o cs e
      → (write_chunks F disk fd cs).1 ≡ true
      → AllRead (write_chunks F disk fd cs).0 fd cs
  unfolding InOrder AllRead
  write_chunks-AllRead [] disk fd o e order done = tt
  write_chunks-AllRead (c ∷ cs) disk fd o e (first, order) done =
      let (full, same) = write_chunks_head disk fd c cs done in
      let disk' = (pwrite disk fd c.content c.size c.place).0 in
      let done' = rw same at done in
      subst (λ (r : Disk × Bool). Reads F r.0 fd c.size c.place c.content × AllRead r.0 fd cs)
        (sym same)
        (
          write_chunks_before cs disk' fd (c.place + c.size) e order done' c.size c.place c.content
              (omega arith) (L.pread-pwrite_self disk fd c.content c.size c.place full),
          write_chunks-AllRead cs disk' fd (c.place + c.size) e order done',
        )

  -- The cut and the sync behind the last chunk keep them.
  AllRead-end :
      (disk : Disk) (fd : ℕ) (cs : List Chunk) (o e : ℕ)
      → InOrder o cs e
      → AllRead disk fd cs
      → AllRead (fsync (ftruncate disk fd e).0 fd).0 fd cs
  unfolding InOrder AllRead
  AllRead-end disk fd [] o e order r = tt
  AllRead-end disk fd (c ∷ cs) o e (first, order) (r, rs) = (
    L.pread-fsync _ fd c.size c.place c.content (
        L.pread-ftruncate disk fd e c.size c.place c.content
          (in_bounds cs (c.place + c.size) e order) r),
    AllRead-end disk fd cs (c.place + c.size) e order rs,
  )

  -- Where every write is done in full and every sync succeeds, `WriteToDisk` returns true.
  pub write_to_disk-true :
      (m : FreeSpaceMap) (disk : Disk) (fd : ℕ)
      → ((d : Disk) (b : Memory) (n offset : ℕ) → (pwrite d fd b n offset).1 ≡ some n)
      → ((d : Disk) → (fsync d fd).1 ≡ true)
      → (write_to_disk F m disk (some fd)).1 ≡ true
  unfolding write_to_disk
  write_to_disk-true m disk fd writes syncs = rw (all (chunks m) disk) (syncs _)
    where
      all : (cs : List Chunk) (d : Disk) → (write_chunks F d fd cs).1 ≡ true
      all cs d = write_chunks-true cs d fd writes

  pub write_to_disk-AllRead :
      (m : FreeSpaceMap) (disk : Disk) (fd : ℕ)
      → InOrder 0 (chunks m) (end_offset m)
      → (write_to_disk F m disk (some fd)).1 ≡ true
      → AllRead (write_to_disk F m disk (some fd)).0 fd (chunks m)
  unfolding write_to_disk
  write_to_disk-AllRead m disk fd order done =
      elim (Bool-cases (write_chunks F disk fd (chunks m)).1) [
        | inl ok ↦ rw ok (
            AllRead-end _ fd (chunks m) 0 (end_offset m) order
              (write_chunks-AllRead (chunks m) disk fd 0 (end_offset m) order ok))
        | inr bad ↦ absurd (cc (rw bad at done))
      ]

  write_chunks-Opened :
      (cs : List Chunk) (disk : Disk) (fd : ℕ) (name : Name)
      → L.Opened disk name fd
      → L.Opened (write_chunks F disk fd cs).0 name fd
  unfolding write_chunks
  write_chunks-Opened [] disk fd name o = o
  write_chunks-Opened (c ∷ cs) disk fd name o =
      let o' = L.pwrite-Opened disk name fd c.content c.size c.place o in
      elim (Bool-cases (in_full (pwrite disk fd c.content c.size c.place).1 c.size)) [
        | inl full ↦ rw full (write_chunks-Opened cs _ fd name o')
        | inr short ↦ rw short o'
      ]

  pub write_to_disk-Opened :
      (m : FreeSpaceMap) (disk : Disk) (fd : ℕ) (name : Name)
      → L.Opened disk name fd
      → L.Opened (write_to_disk F m disk (some fd)).0 name fd
  unfolding write_to_disk
  write_to_disk-Opened m disk fd name o =
      let o' = write_chunks-Opened (chunks m) disk fd name o in
      elim (Bool-cases (write_chunks F disk fd (chunks m)).1) [
        | inl ok ↦ rw ok (L.fsync-Opened _ name fd (L.ftruncate-Opened _ name fd (end_offset m) o'))
        | inr bad ↦ rw bad o'
      ]

  pub AllRead-reopen :
      (cs : List Chunk) (disk : Disk) (name : Name) (fd fd' : ℕ)
      → L.Opened disk name fd
      → (open_file (close_file disk fd) name).1 ≡ some fd'
      → AllRead disk fd cs
      → AllRead (open_file (close_file disk fd) name).0 fd' cs
  unfolding AllRead
  AllRead-reopen [] disk name fd fd' o e r = tt
  AllRead-reopen (c ∷ cs) disk name fd fd' o e (r, rs) = (
    L.pread-reopen disk name fd fd' c.size c.place c.content o e r,
    AllRead-reopen cs disk name fd fd' o e rs,
  )
