-- ===== src/Chunk.antt =====
-- The chunks of data that modules exchange, and the visitors and iterators that go over their bytes:
-- StrMod/StrSubChunk.cxx, StrMod/GroupChunk.cxx, StrMod/BufferChunk.cxx,
-- StrMod/UseTrackingVisitor.cxx, StrMod/ApplyVisitor.cxx and StrMod/ChunkIterator.cxx.
pub mod Slices
pub mod Tree
pub mod Sound
pub mod Visitor
pub mod Calls
pub mod Visits
pub mod Visited
pub mod Apply
pub mod Iterator
pub mod Positions
pub mod Walk
pub mod Cursor
mod Tests
