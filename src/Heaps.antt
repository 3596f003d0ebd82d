-- ===== src/Heaps.antt =====
-- The memory heaps, kernel/source/memory/heaps.c.
pub mod State
pub mod Create
pub mod Mallocate
pub mod Free
pub mod Chain
pub mod Merge
pub mod Insert
pub mod Behind
pub mod Release
pub mod Links
pub mod Freed
pub mod Best
pub mod Loop
pub mod Marked
pub mod Allocated
pub mod Search
pub mod Taken
pub mod RoundTrip
pub mod Headers
pub mod Created
mod Tests
