-- ===== src/Lib.antt =====
-- A model of the storage engine's core, and what is proved of it. Paths are from the root of the
-- repository.
--
-- The engine keeps tuples in slotted pages of 8192 bytes. `Page` (src/page/page.cpp) lays a header of
-- 40 bytes and a directory of slots, which grows down from the end, over a buffer, and inserts,
-- deletes, updates and forwards tuples; each change refreshes a CRC-32 (src/common/checksum.cpp) over
-- the page without its run-time fields, which readers verify. `FreeSpaceMap`
-- (src/storage/free_space_map.cpp) gives each page one byte of free space and finds a page for an
-- insertion. `Schema` (src/schema) lays out columns, and `TupleHeader` (src/tuple/tuple_header.cpp)
-- keeps the null bitmap and the offsets at the front of a serialized tuple of `FieldValue`s.
-- `PageManager` (src/storage/page_manager.cpp) keeps up to 100 pages in memory and works on tuples by id.
-- `DiskManager` (src/storage/disk_manager.cpp) keeps the pages in a file behind a header of 596 bytes: it
-- clears the run-time fields and refreshes the checksum when it writes a page, and verifies the
-- checksum and counts the deleted slots again when it reads one.
--
-- Files:
--   Common      names from the libraries; tests, lists, sums, bits; `ErrorCode` as its integer code.
--   Memory      a buffer as a function from offsets to bytes; fields, memcpy and memset on it.
--   Checksum    include/common/checksum.h, src/common/checksum.cpp.
--   Page        include/page, src/page: Layout the structs, Image the whole page and its checksum,
--               Directory the slots, Tuples the operations on tuples, Compaction, Chain the walk along
--               forwarding pointers, Object the methods of `Page` with their null checks, View the
--               class `PageView`. Invariant says when a page is well formed; History is the step
--               relation of the operations on tuples and of compaction.
--   Files       the system calls on files that the code makes, as a record of operations and a record of
--               what the code relies on; OneFile is a disk in memory that meets it.
--   FreeSpace   the free space map in memory; FreeSpace.Store is its file, with `Initialize`, `Flush`
--               and the destructor.
--   DiskManager include/storage/disk_manager.h, src/storage/disk_manager.cpp: Image what reading and
--               writing do to a page, Pages, Damage and Restart what is read back, Session, Allocation
--               and Refusal the other methods, History their step relation.
--   PageManager include/storage/page_manager.h, src/storage/page_manager.cpp: the cache and the methods
--               on one page, Methods and Update the others, Flush what reaches the disk, Bounds and History the size
--               of the cache.
--   Schema      include/schema, src/schema, and `DataType` of include/common/types.h.
--   Tuple       src/tuple: Header is `TupleHeader`, Field is `FieldValue`, Builder is `TupleBuilder`
--               by index, and Builder/Named by name. Serializer is `TupleSerializer`: Fixed and
--               Variable its two formats, each with its round trip, Size the size of a tuple.
--               Accessor is `TupleAccessor`: Cache and Stateless its cache, ByName the
--               methods by name, Calls sequences of reads, EndToEnd what is read of what was
--               serialized.
--   Tests       sample states, and each theorem at a concrete input.
-- A child of a module holds its laws.
--
-- Conventions. Numbers are natural numbers; arithmetic of a fixed width has its wrap-around written
-- out. A `Page` with a buffer is the bytes, and an operation takes them and returns the new ones. A
-- struct laid over the bytes is read by `header` or `slot` and written back field by field. Loops go
-- down on the number of rounds left: `slot_count` for the directory, `max_hops` for the walk (a
-- negative one throws before the loop), which is what bounds them in the code too. Log output is left
-- out, as are messages that go with codes.
-- Each method of `FreeSpaceMap` holds its mutex throughout and is one step, as do the methods of
-- `DiskManager` that change its state. The system calls are operations on an unknown disk, which tell
-- how many bytes they moved or that they failed; the theorems on files suppose that what was written in
-- full is read back, also after the file is closed and opened, and that a write leaves other bytes alone.
-- An exception of the tuple code is a result that carries which it was; what the serializer has
-- written to the buffer by then is not kept. The buffer is memory without an end, so that a write past
-- `buffer_size` is one that changes the bytes there.
--
-- A page's memory has no end either: the slot directory holds at most 1024 entries in a page, and for
-- a `slot_count` above that the C++ code reads before the buffer, where the model reads some bytes. The
-- theorems for which that matters bound the count or suppose a well-formed page.
--
-- Not modelled: the logger, the file handle and the main program, which only do input and output.
pub mod Common
pub mod Memory
pub mod Checksum
pub mod Page
pub mod Files
pub mod FreeSpace
pub mod DiskManager
pub mod PageManager
pub mod Schema
pub mod Tuple
pub mod Tests
