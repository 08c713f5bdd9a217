-- ===== src/Tests/PageTests.antt =====
-- The theorems on pages and their checksum, at small pages.
use storage_prototype.Common.{
  ℕ, ◌+◌, ◌*◌, ◌%◌, ◌^◌, ◌≤◌, ◌<◌, ◌≡◌, ◌≢◌, ◌⊎◌, ◌↔◌, inr, refl, arith, true, false, ◌==◌,
  if◌then◌else◌,
}
use storage_prototype.Common.Int.{pos, negsuc, success}
use storage_prototype.Memory.{Memory, byte_at}
use storage_prototype.Checksum.{compute}
use storage_prototype.Checksum.Detection.{compute_detects}
use storage_prototype.Page.Layout.{header, slot}
use storage_prototype.Page.Image.{verify_checksum, create_new}
use storage_prototype.Page.Image.Laws.{verify-create_new}
use storage_prototype.Page.Image.Damage.{verify_detects}
use storage_prototype.Page.Directory.{TupleId, has_valid, has_forwarded, get_forwarding_pointer}
use storage_prototype.Page.Invariant.{IsLive, WellFormed, KeepsTuple, tuple_byte}
use storage_prototype.Page.Tuples.{
  insert_tuple, delete_tuple, update_tuple_in_place, mark_slot_forwarded,
}
use storage_prototype.Page.Tuples.Delete.{delete_tuple_lem, delete_tuple_total}
use storage_prototype.Page.Tuples.Update.{update_tuple_in_place_lem, update_tuple_in_place_total}
use storage_prototype.Page.Tuples.Forward.{mark_slot_forwarded_lem, mark_slot_forwarded_total}
use storage_prototype.Page.History.{Good, created, later, insert, delete, Reachable-Good}
use storage_prototype.Page.Chain.{ends_at, length_error, follow_forwarding_chain}
use storage_prototype.Page.Chain.Sound.{Ends, follow_forwarding_chain-Ends}
use storage_prototype.Tests.Sample.{
  sample, header-sample, slot-sample_live, live, sample-WellFormed,
}
use storage_prototype.Page.Directory.{recompute_fragmentation_stats}
use storage_prototype.Page.Directory.Statistics.{
  slot_sum, dead_count, dead_length, recompute_fragmentation_stats_lem,
}

abbrev bytes : Memory
bytes x = x + 1

abbrev five : ℕ
five = 5

abbrev fresh_page : Memory
fresh_page = create_new (λ x. 0)

-- The fresh page with one bit of the data area flipped.
abbrev damaged : Memory
damaged x = if x == 100 then 1 + 2 * fresh_page x + 255 * fresh_page x else fresh_page x

slot_zero : 0 < (header sample).slot_count
slot_zero = rw header-sample (omega arith)

shorter : 3 ≤ (slot sample 0).length
shorter = rw slot-sample_live (omega arith)

here : has_forwarded (slot sample 0) ≡ false
here = rw slot-sample_live refl

flipped : (n : ℕ) → (1 + 2 * n + 255 * n) % 256 ≢ n % 256
flipped n e = omega arith

Reachable-Good_example : Good (delete_tuple (insert_tuple fresh_page bytes 5).0 0).0
Reachable-Good_example =
    Reachable-Good (later (later (created (λ x. 0)) (insert bytes 5)) (delete 0))

delete_tuple_lem_example :
    let m' = (delete_tuple sample 0).0 in
    ((delete_tuple sample 0).1 ≡ success)
    × WellFormed m'
    × (has_valid (slot m' 0) ≡ false)
    × ((i : ℕ)
        → i < (header sample).slot_count
        → i ≢ 0
        → IsLive (slot sample i)
        → KeepsTuple sample m' i)
    × ((header m').deleted_tuple_count ≡ ((header sample).deleted_tuple_count + 1) % 2 ^ 16)
    × ((header m').fragmented_bytes
        ≡ ((header sample).fragmented_bytes + (slot sample 0).length) % 2 ^ 64)
    × ((header m').is_dirty ≡ true)
    × (verify_checksum m' ≡ true)
delete_tuple_lem_example = delete_tuple_lem sample 0 sample-WellFormed slot_zero live

delete_tuple_total_example :
    (((delete_tuple sample 1).1 ≡ success)
      ↔ ((1 < (header sample).slot_count) × IsLive (slot sample 1)))
    × ((delete_tuple sample 1).1 ≢ success → (delete_tuple sample 1).0 ≡ sample)
delete_tuple_total_example = delete_tuple_total sample 1

update_tuple_in_place_lem_example :
    let m' = (update_tuple_in_place sample 0 bytes 3).0 in
    ((update_tuple_in_place sample 0 bytes 3).1 ≡ success)
    × WellFormed m'
    × (slot m' 0 ≡ record (slot sample 0) { length = 3 })
    × ((k : ℕ) → k < 3 → tuple_byte m' 0 k ≡ bytes k)
    × ((i : ℕ)
        → i < (header sample).slot_count
        → i ≢ 0
        → IsLive (slot sample i)
        → KeepsTuple sample m' i)
    × ((header m').is_dirty ≡ true)
    × (verify_checksum m' ≡ true)
update_tuple_in_place_lem_example =
    update_tuple_in_place_lem sample 0 sample-WellFormed slot_zero live bytes 3 shorter here
      (omega arith)

update_tuple_in_place_total_example :
    (((update_tuple_in_place sample 0 bytes 9).1 ≡ success) ↔ (
      (0 < 9)
      × (0 < (header sample).slot_count)
      × IsLive (slot sample 0)
      × (has_forwarded (slot sample 0) ≡ false)
      × (9 ≤ (slot sample 0).length)))
    × ((update_tuple_in_place sample 0 bytes 9).1 ≢ success
        → (update_tuple_in_place sample 0 bytes 9).0 ≡ sample)
update_tuple_in_place_total_example = update_tuple_in_place_total sample 0 bytes 9

mark_slot_forwarded_lem_example :
    let m' = (mark_slot_forwarded sample 0 1234 42).0 in
    ((mark_slot_forwarded sample 0 1234 42).1 ≡ success)
    × WellFormed m'
    × IsLive (slot m' 0)
    × (has_forwarded (slot m' 0) ≡ true)
    × ((slot m' 0).length ≡ 0)
    × (get_forwarding_pointer m' 0 ≡ record { page_id = 1234; slot_id = 42 })
    × ((i : ℕ)
        → i < (header sample).slot_count
        → i ≢ 0
        → IsLive (slot sample i)
        → KeepsTuple sample m' i)
    × ((header m').deleted_tuple_count ≡ (header sample).deleted_tuple_count)
    × ((header m').fragmented_bytes
        ≡ ((header sample).fragmented_bytes + (slot sample 0).length) % 2 ^ 64)
    × ((header m').is_dirty ≡ true)
    × (verify_checksum m' ≡ true)
mark_slot_forwarded_lem_example =
    mark_slot_forwarded_lem sample 0 sample-WellFormed slot_zero 1234 42 live

mark_slot_forwarded_total_example :
    (((mark_slot_forwarded sample 1 2 3).1 ≡ success)
      ↔ ((1 < (header sample).slot_count) × IsLive (slot sample 1)))
    × ((mark_slot_forwarded sample 1 2 3).1 ≢ success
        → (mark_slot_forwarded sample 1 2 3).0 ≡ sample)
mark_slot_forwarded_total_example = mark_slot_forwarded_total sample 1 2 3

abbrev altered : Memory
altered x = if x == 2 then 7 else bytes x

altered_elsewhere : (j : ℕ) → j < 4 → j ≢ 2 → byte_at altered j ≡ byte_at bytes j
altered_elsewhere j p ne = ground arith

compute_detects_example : compute altered 4 ≢ compute bytes 4
compute_detects_example =
    compute_detects bytes altered 4 2 (omega arith) altered_elsewhere (omega arith)

damaged_elsewhere : (x : ℕ) → x ≢ 100 → byte_at damaged x ≡ byte_at fresh_page x
damaged_elsewhere x ne = ground arith

verify_detects_example : verify_checksum damaged ≡ false
verify_detects_example =
    verify_detects fresh_page damaged 100 damaged_elsewhere (inr (omega arith, omega arith))
      (verify-create_new (λ x. 0)) (flipped (fresh_page 100))

few_slots : (header sample).slot_count ≤ 1019
few_slots = rw header-sample (omega arith)

recompute_fragmentation_stats_lem_example :
    let m' = recompute_fragmentation_stats sample in
    ((header m').deleted_tuple_count ≡ slot_sum dead_count (header sample).slot_count 0 sample)
    × ((header m').fragmented_bytes ≡ slot_sum dead_length (header sample).slot_count 0 sample)
    × ((header m').slot_count ≡ (header sample).slot_count)
    × ((i : ℕ) → i < 1019 → slot m' i ≡ slot sample i)
recompute_fragmentation_stats_lem_example = recompute_fragmentation_stats_lem sample few_slots

follow_forwarding_chain-Ends_example :
    ((k : ℕ) × (pos 10 ≡ negsuc k)
      × (0 < (header sample).slot_count)
      × (follow_forwarding_chain sample 0 (pos 10) ≡ length_error))
    ⊎ ((t : TupleId) × (((n : ℕ) × (pos 10 ≡ pos n)) ⊎ ((header sample).slot_count ≤ 0))
        × (follow_forwarding_chain sample 0 (pos 10) ≡ ends_at t)
        × Ends sample t)
follow_forwarding_chain-Ends_example =
    follow_forwarding_chain-Ends sample (omega (arith, few_slots)) 0 (pos 10)
