-- ===== src/Tests.antt =====
-- Runs at concrete inputs, and the theorems applied to them.
mod Sample
mod PageTests
mod StoreTests
mod TupleTests
mod SerializerTests
mod CompactionTests
mod DiskTests
mod FsmTests
mod ManagerTests
