-- ===== src/DiskManager/Pages.antt =====
-- `ReadPage` and `WritePage`: what was written is read back, other pages stay.
use storage_prototype.Common.{
  ℕ, ◌^◌, ◌<◌, ◌≡◌, ◌≢◌, inl, inr, refl, sym, ap, ◌∙◌, subst, arith, true, Bool-cases, ◌==◌, ==→eq,
  Option, none, some, lt-or-le, if◌then◌else◌,
}
use storage_prototype.Memory.{Memory}
use storage_prototype.Memory.Frame.{Apart}
use storage_prototype.Memory.Fill.{filled, filled_below, filled_congr}
use storage_prototype.Files.{Files, IsLawful}
use storage_prototype.Page.Image.{verify_checksum}
use storage_prototype.Page.Object.{PageBuffer, page_verify_checksum}
use storage_prototype.Page.View.Agrees.{view_checksum_lem}
use storage_prototype.Page.Invariant.{WellFormed}
use storage_prototype.DiskManager.{
  DiskManager, Outcome, returns, throws, ready, page_offset, finish_read, read_ready, write_ready,
  finish_write, load_page, store_page, read_page, write_page, checksum_failed,
}
use storage_prototype.DiskManager.Image.{Reloaded, load-store}

pub some_injective : {a b : ℕ} → some a ≡ some b → a ≡ b
some_injective {a} e = ap (λ (o : Option ℕ). elim o [ none ↦ a | some n ↦ n ]) e

-- What `ReadPage` does with the 8192 bytes that it got.
abbrev pub accept : Memory → PageBuffer × Outcome (Unit {0})
accept m = (
  some (load_page m),
  if verify_checksum (load_page m) then returns tt else throws checksum_failed,
)

finish_read-accept :
    (buffer bytes : Memory)
    → finish_read buffer bytes (some 8192) ≡ accept (filled 8192 buffer bytes)
unfolding finish_read page_verify_checksum
finish_read-accept buffer bytes =
    rw (view_checksum_lem (some (load_page (filled 8192 buffer bytes)))).1
      (elim (Bool-cases (verify_checksum (load_page (filled 8192 buffer bytes)))) [
        | inl good ↦ rw good refl
        | inr bad ↦ rw bad refl
      ])

finish_read-returns :
    (buffer bytes : Memory) (n : Option ℕ)
    → (finish_read buffer bytes n).1 ≡ returns tt
    → (n ≡ some 8192) × (verify_checksum (load_page (filled 8192 buffer bytes)) ≡ true)
unfolding finish_read
finish_read-returns buffer bytes none e = absurd (cc (e))
finish_read-returns buffer bytes (some n) e = elim (Bool-cases (n == 8192)) [
  | inl eq ↦
      let all = ==→eq n 8192 eq in
      (
        ap some all,
        accepted (
            ap (λ (r : PageBuffer × Outcome (Unit {0})). r.1)
              (sym (
                ap (λ (k : ℕ). finish_read buffer bytes (some k)) all
                ∙ finish_read-accept buffer bytes))
            ∙ e),
      )
  | inr ne ↦ absurd (cc (rw ne at e))
]
  where
    accepted :
        (accept (filled 8192 buffer bytes)).1 ≡ returns tt
        → verify_checksum (load_page (filled 8192 buffer bytes)) ≡ true
    accepted d = elim (Bool-cases (verify_checksum (load_page (filled 8192 buffer bytes)))) [
      | inl good ↦ good
      | inr bad ↦ absurd (cc (rw bad at d))
    ]

module _ (F : Files) (dm : DiskManager) (fd : ℕ) (is_ready : ready dm ≡ some fd) where
  open F use {Disk, pread, pwrite, fsync}

  pub read_page-full :
      (disk : Disk) (page_id : ℕ) (buffer : Memory)
      → (pread disk fd 8192 (page_offset page_id)).1 ≡ some 8192
      → read_page F dm disk page_id (some buffer)
        ≡ accept (filled 8192 buffer (pread disk fd 8192 (page_offset page_id)).0)
  unfolding read_page read_ready
  read_page-full disk page_id buffer full = rw (is_ready, full) (finish_read-accept buffer _)

  pub write_page-full :
      (disk : Disk) (page_id : ℕ) (m : Memory)
      → (pwrite disk fd (store_page m) 8192 (page_offset page_id)).1 ≡ some 8192
      → write_page F dm disk page_id (some m) ≡ (
        (fsync (pwrite disk fd (store_page m) 8192 (page_offset page_id)).0 fd).0,
        some (store_page m),
        returns tt,
      )
  unfolding write_page write_ready finish_write
  write_page-full disk page_id m full = rw (is_ready, full) refl

  offset-Apart :
      (i j : ℕ) → i < 2 ^ 32 → j < 2 ^ 32 → i ≢ j → Apart (page_offset j) 8192 (page_offset i) 8192
  offset-Apart i j p q ne = elim (lt-or-le i j) [
    | inl before ↦ inr (omega arith)
    | inr after ↦ inl (omega arith)
  ]

-- A call of `WritePage` that returns found the file open and wrote the page in full.
module _ (F : Files) where
  open F use {Disk, pread, pwrite, fsync}

  finish_write-returns :
      (disk : Disk) (fd : ℕ) (m : Memory) (n : Option ℕ)
      → (finish_write F disk fd m n).2 ≡ returns tt
      → n ≡ some 8192
  unfolding finish_write
  finish_write-returns disk fd m none e = absurd (cc (e))
  finish_write-returns disk fd m (some n) e = ground (arith, e)

  write_ready-returns :
      (disk : Disk) (page_id : ℕ) (m : Memory) (o : Option ℕ)
      → (write_ready F disk page_id (some m) o).2 ≡ returns tt
      → (fd : ℕ) × (o ≡ some fd)
        × ((pwrite disk fd (store_page m) 8192 (page_offset page_id)).1 ≡ some 8192)
  unfolding write_ready
  write_ready-returns disk page_id m none e = absurd (cc (e))
  write_ready-returns disk page_id m (some fd) e = (fd, refl, finish_write-returns _ fd _ _ e)

  read_ready-returns :
      (disk : Disk) (page_id : ℕ) (buffer : Memory) (o : Option ℕ)
      → (read_ready F disk page_id (some buffer) o).1 ≡ returns tt
      → (fd : ℕ) × (o ≡ some fd)
        × ((pread disk fd 8192 (page_offset page_id)).1 ≡ some 8192)
        × (verify_checksum
              (load_page (filled 8192 buffer (pread disk fd 8192 (page_offset page_id)).0))
            ≡ true)
  unfolding read_ready
  read_ready-returns disk page_id buffer none e = absurd (cc (e))
  read_ready-returns disk page_id buffer (some fd) e =
      let (full, good) = finish_read-returns buffer _ _ e in (fd, refl, full, good)

  write_page-returns :
      (dm : DiskManager) (disk : Disk) (page_id : ℕ) (m : Memory)
      → (write_page F dm disk page_id (some m)).2 ≡ returns tt
      → (fd : ℕ) × (ready dm ≡ some fd)
        × ((pwrite disk fd (store_page m) 8192 (page_offset page_id)).1 ≡ some 8192)
  unfolding write_page
  write_page-returns dm disk page_id m e = write_ready-returns disk page_id m (ready dm) e

  pub read_page-returns :
      (dm : DiskManager) (disk : Disk) (page_id : ℕ) (buffer : Memory)
      → (read_page F dm disk page_id (some buffer)).1 ≡ returns tt
      → (fd : ℕ) × (ready dm ≡ some fd)
        × ((pread disk fd 8192 (page_offset page_id)).1 ≡ some 8192)
        × (verify_checksum
              (load_page (filled 8192 buffer (pread disk fd 8192 (page_offset page_id)).0))
            ≡ true)
  unfolding read_page
  read_page-returns dm disk page_id buffer e = read_ready-returns disk page_id buffer (ready dm) e

  -- `WritePage` of a well-formed page, when it returns, and then `ReadPage` of the same id into any
  -- buffer: it returns, and gives the page that was written, with its header but for the run-time
  -- fields and the checksum, its slots and its bytes; the counters of deleted slots are exact, the page
  -- is clean, verifies and is well formed.
  pub read_page-write_page :
      (L : IsLawful F) (dm : DiskManager) (disk : Disk) (page_id : ℕ) (m buffer : Memory)
      → WellFormed m
      → (write_page F dm disk page_id (some m)).2 ≡ returns tt
      → let r = read_page F dm (write_page F dm disk page_id (some m)).0 page_id (some buffer) in
        (r.1 ≡ returns tt) × (m' : Memory) × (r.0 ≡ some m') × Reloaded m m'
  read_page-write_page L dm disk page_id m buffer w done =
      let (fd, is_ready, full) = write_page-returns dm disk page_id m done in
      let disk' = (fsync (pwrite disk fd (store_page m) 8192 (page_offset page_id)).0 fd).0 in
      let (all, same) =
        L.pread-fsync _ fd 8192 (page_offset page_id) (store_page m)
          (L.pread-pwrite_self disk fd (store_page m) 8192 (page_offset page_id) full) in
      let bytes = filled 8192 buffer (pread disk' fd 8192 (page_offset page_id)).0 in
      let reloaded = load-store m bytes w (λ x p. filled_below 8192 buffer _ x p ∙ same x p) in
      rw (write_page-full F dm fd is_ready disk page_id m full) (
        rw (read_page-full F dm fd is_ready disk' page_id buffer all)
          (rw reloaded.verified refl, load_page bytes, refl, reloaded))

  -- `WritePage` that returns leaves what `ReadPage` of any other page gives, if that returned before.
  pub read_page-write_page_ne :
      (L : IsLawful F) (dm : DiskManager) (disk : Disk) (i j : ℕ) (m buffer : Memory)
      → i < 2 ^ 32
      → j < 2 ^ 32
      → i ≢ j
      → (write_page F dm disk i (some m)).2 ≡ returns tt
      → (read_page F dm disk j (some buffer)).1 ≡ returns tt
      → read_page F dm (write_page F dm disk i (some m)).0 j (some buffer)
        ≡ read_page F dm disk j (some buffer)
  read_page-write_page_ne L dm disk i j m buffer p q ne done readable =
      let (fd, is_ready, full) = write_page-returns dm disk i m done in
      let (_, ready', full'', _) = read_page-returns dm disk j buffer readable in
      let full' =
        subst (λ (f : ℕ). (pread disk f 8192 (page_offset j)).1 ≡ some 8192)
          (some_injective (sym ready' ∙ is_ready)) full'' in
      let disk' = (fsync (pwrite disk fd (store_page m) 8192 (page_offset i)).0 fd).0 in
      let bytes = (pread disk fd 8192 (page_offset j)).0 in
      let (all, same) = L.pread-fsync _ fd 8192 (page_offset j) bytes (
        L.pread-pwrite-Apart disk fd (store_page m) 8192 (page_offset i) full 8192 (page_offset j)
          bytes (offset-Apart F dm fd is_ready i j p q ne) (full', λ k r. refl)) in
      rw (write_page-full F dm fd is_ready disk i m full) (
        read_page-full F dm fd is_ready disk' j buffer all
        ∙ ap accept (filled_congr 8192 buffer bytes _ same)
        ∙ sym (read_page-full F dm fd is_ready disk j buffer full'))
