-- ===== src/Page/Invariant/Preserve.antt =====
-- The changes to a directory that keep it packed.
use storage_prototype.Common.{ℕ, ◌+◌, ◌*◌, ◌≤◌, ◌<◌, ◌≡◌, ◌≢◌, inl, inr, arith, eq-or-ne}
use storage_prototype.Common.Sums.{sum_below}
use storage_prototype.Page.Layout.{SlotEntry, header_size, slot_entry_size, page_size}
use storage_prototype.Page.Invariant.{IsLive, live_length, IsPacked}

module _ {fs fe count : ℕ} {s : ℕ → SlotEntry} (packed : IsPacked fs fe count s) where
  open packed use {after_header, room, directory, inside, disjoint, used}

  -- Every entry keeps its place, or shrinks in it, or dies.
  pub shrink-IsPacked :
      (s' : ℕ → SlotEntry)
      → ((i : ℕ)
          → i < count
          → IsLive (s' i)
          → IsLive (s i) × ((s' i).offset ≡ (s i).offset) × ((s' i).length ≤ (s i).length))
      → sum_below count (λ i. live_length (s' i)) ≤ sum_below count (λ i. live_length (s i))
      → IsPacked fs fe count s'
  shrink-IsPacked s' kept less = record {
    after_header = after_header;
    room = room;
    directory = directory;
    inside = λ i p live. let (old, at, size) = kept i p live in omega (arith, inside i p old);
    disjoint = λ i j p q ne live live'.
        let (old, at, size) = kept i p live in
        let (old', at', size') = kept j q live' in omega (arith, disjoint i j p q ne old old');
    used = omega arith;
  }

  -- One entry takes a new range at the end of the data area.
  pub append-IsPacked :
      (s' : ℕ → SlotEntry) (k n fe' count' : ℕ)
      → IsLive (s' k)
      → (s' k).offset ≡ fs
      → (s' k).length ≡ n
      → ((i : ℕ) → i < count' → i ≢ k → (s' i ≡ s i) × (i < count))
      → fs + n ≤ fe'
      → fe' + slot_entry_size * count' ≤ page_size
      → sum_below count' (λ i. live_length (s' i)) ≡ sum_below count (λ i. live_length (s i)) + n
      → IsPacked (fs + n) fe' count' s'
  append-IsPacked s' k n fe' count' live at size same fits dir grown = record {
    after_header = omega arith;
    room = fits;
    directory = dir;
    inside = λ i p l. elim (eq-or-ne i k) [ inl e ↦ rw e (omega arith) | inr ne ↦ old i p ne l ];
    disjoint = λ i j p q ne l l'. elim (eq-or-ne i k) [
      | inl e ↦ rw e (inr (before j q (omega arith) l'))
      | inr ni ↦ elim (eq-or-ne j k) [
        | inl e ↦ rw e (inl (before i p ni l))
        | inr nj ↦
            let (ei, bi) = same i p ni in
            let (ej, bj) = same j q nj in
            rw (ei, ej) (disjoint i j bi bj ne (rw ei at l) (rw ej at l'))
      ]
    ];
    used = omega arith;
  }
    where
      old :
          (i : ℕ)
          → i < count'
          → i ≢ k
          → IsLive (s' i)
          → (header_size ≤ (s' i).offset) × ((s' i).offset + (s' i).length ≤ fs + n)
      old i p ne l =
          let (e, below) = same i p ne in rw e (omega (arith, inside i below (rw e at l)))

      before :
          (i : ℕ)
          → i < count'
          → i ≢ k
          → IsLive (s' i)
          → (s' i).offset + (s' i).length ≤ (s' k).offset
      before i p ne l = let (e, below) = same i p ne in rw (e, at) (inside i below (rw e at l)).1
