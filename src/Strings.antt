-- ===== src/Strings.antt =====
-- The string functions, core/source/string.c.
pub mod Memory
pub mod Memset
pub mod Compare
pub mod Copy
pub mod Bytes
pub mod Fill
pub mod Filled
pub mod Compared
pub mod Takes
pub mod Copied
pub mod Overrun
mod Tests
