-- ===== src/Page/Chain.antt =====
-- src/page/page.cpp: `FollowForwardingChain`, on a page with a buffer.
pub mod Sound
use storage_prototype.Common.{
  ℕ, zero, suc, Bool, false, not, ◌&&◌, ◌||◌, leb, ◌==◌, if◌then◌else◌, List, [], ◌∷◌, ◌++◌,
}
use storage_prototype.Common.Int.{ℤ, pos, negsuc}
use storage_prototype.Memory.{Memory}
use storage_prototype.Page.Layout.{header, slot}
use storage_prototype.Page.Directory.{TupleId, has_valid, has_forwarded, get_forwarding_pointer}

abbrev pub no_tuple : TupleId
no_tuple = record { page_id = 0; slot_id = 0 }

-- VisitedSlot::operator==
abbrev pub same_visit : TupleId → TupleId → Bool
same_visit a b = (a.page_id == b.page_id) && (a.slot_id == b.slot_id)

unfoldable pub was_visited : TupleId → List TupleId → Bool
was_visited t [] = false
was_visited t (v ∷ vs) = same_visit v t || was_visited t vs

-- One round of the loop; `further` is what the remaining rounds return, or the failure at the
-- last round.
pub hop : Memory → List TupleId → TupleId → TupleId → TupleId
hop m visited current further =
    if was_visited current visited
    then no_tuple
    else if not (current.page_id == (header m).page_id)
    then current
    else if leb (header m).slot_count current.slot_id
    then no_tuple
    else if has_valid (slot m current.slot_id)
    then if has_forwarded (slot m current.slot_id) then further else current
    else no_tuple

-- The loop with `left` rounds to go after this one.
pub follow : Memory → ℕ → List TupleId → TupleId → TupleId
follow m zero visited current = hop m visited current no_tuple
follow m (suc left) visited current =
    hop m visited current
      (follow m left (visited ++ (current ∷ [])) (get_forwarding_pointer m current.slot_id))

-- The walk, for a number of hops that is not negative.
pub follow_hops : Memory → ℕ → ℕ → TupleId
follow_hops m id max_hops =
    let count = (header m).slot_count in
    if (count == 0) || leb count id
    then no_tuple
    else follow m max_hops [] (record { page_id = (header m).page_id; slot_id = id })

-- A call that returns a tuple, or throws std::length_error.
pub data Walk : Type 0 where
  ends_at : TupleId → Walk
  length_error : Walk

-- `max_hops` is an `int`: `visited.reserve(max_hops)`, behind the test of the slot id, throws for a
-- negative one, which is above max_size() as a `size_t`. It is taken to get its memory otherwise.
pub follow_forwarding_chain : Memory → ℕ → ℤ → Walk
follow_forwarding_chain m id (pos max_hops) = ends_at (follow_hops m id max_hops)
follow_forwarding_chain m id (negsuc k) =
    let count = (header m).slot_count in
    if (count == 0) || leb count id then ends_at no_tuple else length_error
