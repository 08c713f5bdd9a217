-- ===== src/Tests/CompactionTests.antt =====
-- The theorems on compaction, at the sample page.
use storage_prototype.Common.{ℕ, ◌<◌, ◌≡◌, refl}
use storage_prototype.Page.Layout.{header, slot}
use storage_prototype.Page.Directory.Statistics.{slot_sum, dead_count}
use storage_prototype.Page.Invariant.{IsLive, WellFormed}
use storage_prototype.Page.Compaction.{compact_tuples, compact_page}
use storage_prototype.Page.Compaction.Keeps.{Compacted, compact_tuples_lem}
use storage_prototype.Page.Compaction.Whole.{Survives, compact_page_lem}
use storage_prototype.Tests.Sample.{
  sample, header-sample, slot-sample_live, slot-sample_dead, sample-WellFormed,
}

counted :
    (header sample).deleted_tuple_count ≡ slot_sum dead_count (header sample).slot_count 0 sample
unfolding slot_sum
counted = rw (header-sample, slot-sample_live, slot-sample_dead) refl

compact_page_lem_example :
    let m' = compact_page sample in
    WellFormed m'
    × ((i : ℕ) → i < (header sample).slot_count → IsLive (slot sample i) → Survives sample m' i)
    × ((header m').deleted_tuple_count ≡ 0)
compact_page_lem_example = compact_page_lem sample sample-WellFormed counted

compact_tuples_lem_example :
    Compacted sample (compact_tuples sample) × WellFormed (compact_tuples sample)
compact_tuples_lem_example = compact_tuples_lem sample sample-WellFormed
