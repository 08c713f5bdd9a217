-- ===== src/Page/History.antt =====
-- The states that a page goes through: made by `CreateNew`, then changed by `InsertTuple`,
-- `DeleteTuple`, `UpdateTupleInPlace`, `MarkSlotForwarded` and `CompactPage` with any arguments, in
-- any order.
use storage_prototype.Common.{ℕ, ◌≡◌, inl, inr, true, arith, subst, sym}
use storage_prototype.Common.Int.{success-cases}
use storage_prototype.Common.Sums.{sum_below}
use storage_prototype.Memory.{Memory}
use storage_prototype.Page.Image.{verify_checksum, create_new}
use storage_prototype.Page.Image.Laws.{header-create_new, verify-create_new}
use storage_prototype.Page.Invariant.{WellFormed}
use storage_prototype.Page.Tuples.{
  insert_tuple, delete_tuple, update_tuple_in_place, mark_slot_forwarded,
}
use storage_prototype.Page.Tuples.Delete.{delete_tuple_lem, delete_tuple_total}
use storage_prototype.Page.Tuples.Update.{update_tuple_in_place_lem, update_tuple_in_place_total}
use storage_prototype.Page.Tuples.Forward.{mark_slot_forwarded_lem, mark_slot_forwarded_total}
use storage_prototype.Page.Tuples.Insert.Outcome.{insert_tuple_lem}
use storage_prototype.Page.Compaction.{compact_page}
use storage_prototype.Page.Compaction.Whole.{compact_page-Good}

pub data PageStep (m : Memory) : Memory → Type 0 where
  insert : (tuple : Memory) (size : ℕ) → PageStep m (insert_tuple m tuple size).0
  delete : (id : ℕ) → PageStep m (delete_tuple m id).0
  overwrite :
      (id : ℕ) (new_bytes : Memory) (new_size : ℕ)
      → PageStep m (update_tuple_in_place m id new_bytes new_size).0
  forward : (id page_id slot_id : ℕ) → PageStep m (mark_slot_forwarded m id page_id slot_id).0
  compact : PageStep m (compact_page m)

pub data Reachable : Memory → Type 0 where
  created : (raw : Memory) → Reachable (create_new raw)
  later : {m m' : Memory} → Reachable m → PageStep m m' → Reachable m'

abbrev pub Good : Memory → Type 0
Good m = WellFormed m × (verify_checksum m ≡ true)

pub create_new-Good : (raw : Memory) → Good (create_new raw)
unfolding sum_below
create_new-Good raw =
    let (start, end, count, _, _, _) = header-create_new raw in
    (
      rw (start, end, count)
          (record {
            after_header = omega arith;
            room = omega arith;
            directory = omega arith;
            inside = λ i p l. absurd (omega arith);
            disjoint = λ i j p q ne l l'. absurd (omega arith);
            used = omega arith;
          }),
      verify-create_new raw,
    )

kept : {m m' : Memory} → m' ≡ m → Good m → Good m'
kept e g = subst Good (sym e) g

pub delete_tuple-Good : (m : Memory) (id : ℕ) → Good m → Good (delete_tuple m id).0
delete_tuple-Good m id (w, v) = elim (success-cases (delete_tuple m id).1) [
  | inl e ↦
      let (p, l) = (delete_tuple_total m id).0.0 e in
      let (_, w', _, _, _, _, _, v') = delete_tuple_lem m id w p l in (w', v')
  | inr ne ↦ kept ((delete_tuple_total m id).1 ne) (w, v)
]

pub update_tuple_in_place-Good :
    (m : Memory) (id : ℕ) (new_bytes : Memory) (new_size : ℕ)
    → Good m
    → Good (update_tuple_in_place m id new_bytes new_size).0
update_tuple_in_place-Good m id new_bytes new_size (w, v) =
    let (accepts, refuses) = update_tuple_in_place_total m id new_bytes new_size in
    elim (success-cases (update_tuple_in_place m id new_bytes new_size).1) [
      | inl e ↦
          let (some_size, p, l, here, smaller) = accepts.0 e in
          let (_, w', _, _, _, _, v') =
            update_tuple_in_place_lem m id w p l new_bytes new_size smaller here some_size in
          (w', v')
      | inr ne ↦ kept (refuses ne) (w, v)
    ]

pub mark_slot_forwarded-Good :
    (m : Memory) (id p s : ℕ) → Good m → Good (mark_slot_forwarded m id p s).0
mark_slot_forwarded-Good m id p s (w, v) =
    let (accepts, refuses) = mark_slot_forwarded_total m id p s in
    elim (success-cases (mark_slot_forwarded m id p s).1) [
      | inl e ↦
          let (q, l) = accepts.0 e in
          let (_, w', _, _, _, _, _, _, _, _, v') = mark_slot_forwarded_lem m id w q p s l in
          (w', v')
      | inr ne ↦ kept (refuses ne) (w, v)
    ]

pub insert_tuple-Good : (m tuple : Memory) (size : ℕ) → Good m → Good (insert_tuple m tuple size).0
insert_tuple-Good m tuple size (w, v) = elim (insert_tuple_lem m tuple size w) [
  | inl (_, e, _) ↦ kept e (w, v)
  | inr (_, _, i) ↦ (i.well_formed, i.verified)
]

pub PageStep-Good : {m m' : Memory} → PageStep m m' → Good m → Good m'
PageStep-Good (insert tuple size) g = insert_tuple-Good _ tuple size g
PageStep-Good (delete id) g = delete_tuple-Good _ id g
PageStep-Good (overwrite id new_bytes new_size) g =
    update_tuple_in_place-Good _ id new_bytes new_size g
PageStep-Good (forward id p s) g = mark_slot_forwarded-Good _ id p s g
PageStep-Good compact g = compact_page-Good _ g

-- Every page that is reached from a new one by inserting, deleting, updating and forwarding tuples
-- and compacting, with any arguments and whether or not a call succeeds, is well formed and passes `VerifyChecksum`.
pub Reachable-Good : {m : Memory} → Reachable m → Good m
Reachable-Good (created raw) = create_new-Good raw
Reachable-Good (later r s) = PageStep-Good s (Reachable-Good r)
