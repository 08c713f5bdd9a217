-- ===== src/Tuple.antt =====
-- Tuples: include/tuple and src/tuple.
pub mod Header
pub mod Field
pub mod Builder
pub mod Serializer
pub mod Accessor
use storage_prototype.Common.{ℕ}
