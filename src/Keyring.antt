-- ===== src/Keyring.antt =====
-- The key store of kernel/source/crypto/keyring.c: 64 entries of 32 bytes, chained into keys, and 32
-- handles with the keys' metadata.
pub mod State
pub mod Alloc
pub mod Access
pub mod Bytes
pub mod RoundTrip
pub mod Chains
pub mod Entries
pub mod Allocation
pub mod Stored
pub mod Full
mod Tests
