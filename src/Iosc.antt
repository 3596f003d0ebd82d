-- ===== src/Iosc.antt =====
-- The syscalls on key objects: kernel/source/crypto/iosc.c on the key store and the counters.
pub mod Objects
pub mod Counters
pub mod SetData
pub mod Ended
pub mod Deleted
pub mod Created
pub mod Released
pub mod CounterKey
pub mod Advanced
pub mod Unread
pub mod Otp
pub mod Init
pub mod Started
pub mod FirstValue
mod Tests
