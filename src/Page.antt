-- ===== src/Page.antt =====
-- The slotted page: include/page/page.h, src/page/page.cpp and src/page/page_view.cpp.
pub mod Layout
pub mod Image
pub mod Runtime
pub mod Invariant
pub mod Directory
pub mod Tuples
pub mod Compaction
pub mod Chain
pub mod Object
pub mod View
pub mod History
