-- ===== src/Seeprom.antt =====
-- The serial EEPROM of kernel/source/crypto/seeprom.c.
pub mod Pins
pub mod Transfer
pub mod Seed
pub mod Counters
pub mod Words
pub mod Index
pub mod Boot2
pub mod Newest
pub mod Shifted
pub mod Updated
mod Tests
