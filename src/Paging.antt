-- ===== src/Paging.antt =====
-- Memory protection: kernel/source/memory/memory.c and memory.h.
pub mod State
pub mod Cache
pub mod Map
pub mod Check
pub mod Block
pub mod Entry
pub mod Sections
pub mod Translated
pub mod Endless
pub mod Setup
pub mod Readable
pub mod Checked
pub mod Types
pub mod Flushed
mod Tests
