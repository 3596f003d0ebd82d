-- ===== src/Resources.antt =====
-- The resource managers: kernel/source/messaging/resourceManager.c and resourceManager.h.
pub mod Register
pub mod Table
pub mod Again
mod Tests
