-- ===== src/Files/OneFile.antt =====
-- A disk in memory that holds one file, under every name: it meets what is asked of the system calls.
use storage_prototype.Common.{
  ℕ, ◌+◌, ◌-◌, ◌≡◌, refl, ap, ◌∙◌, min, max, arith, Bool, true, false, ltb, if◌then◌else◌, Option,
  none, some,
}
use storage_prototype.Memory.{Memory, memcpy}
use storage_prototype.Memory.Frame.{memcpy_inside, memcpy_apart}
use storage_prototype.Files.{Files, IsLawful}

pub record OneFile : Type 0 where
  pub created : Bool
  pub size : ℕ
  pub bytes : Memory

abbrev pub empty_disk : OneFile
empty_disk = record { created = false; size = 0; bytes = λ x. 0 }

abbrev pub one_file : Files
one_file = record {
  Disk = OneFile;
  exists_file = λ d name. d.created;
  open_file = λ d name. (record d { created = true }, some 3);
  close_file = λ d fd. d;
  file_size = λ d fd. some d.size;
  pread = λ d fd n offset. (λ k. d.bytes (offset + k), some (min n (d.size - offset)));
  pwrite = λ d fd b n offset.
      (record d { size = max d.size (offset + n); bytes = memcpy d.bytes offset b 0 n }, some n);
  ftruncate = λ d fd size.
      (record d { size = size; bytes = λ x. if ltb x size then d.bytes x else 0 }, true);
  fsync = λ d fd. (d, true);
}

get_or_zero : Option ℕ → ℕ
get_or_zero none = 0
get_or_zero (some n) = n

all_there :
    (d : OneFile) (n offset : ℕ)
    → some (min n (d.size - offset)) ≡ some n
    → min n (d.size - offset) ≡ n
unfolding get_or_zero
all_there d n offset e = ap get_or_zero e

pub one_file-IsLawful : IsLawful one_file
one_file-IsLawful = record {
  Opened = λ d name fd. d.created ≡ true;
  open-Opened = λ d name fd e. refl;
  pwrite-Opened = λ d name fd b n offset o. o;
  ftruncate-Opened = λ d name fd size o. o;
  fsync-Opened = λ d name fd o. o;
  exists-close = λ d name fd o. o;
  pread-pwrite_self = λ d fd b n offset e.
      (ap some (omega arith), λ k p. memcpy_inside d.bytes offset b 0 n k p ∙ ap b (omega arith));
  pread-pwrite-Apart = λ d fd b n offset e n' offset' b' away (full, same). (
    ap some (omega (arith, all_there d n' offset' full)),
    λ k p. memcpy_apart d.bytes offset b 0 n (offset' + k) (omega arith) ∙ same k p,
  );
  pread-fsync = λ d fd n offset b r. r;
  pread-ftruncate = λ d fd size n offset b fits (full, same).
      (ap some (omega arith), λ k p. ground (arith, same k p));
  pread-reopen = λ d name fd fd' n offset b o e r. r;
  file_size-pread = λ d fd n offset b some_bytes (full, same).
      (d.size, refl, omega (arith, all_there d n offset full));
}
