-- ===== src/Messages.antt =====
-- The message queues of kernel/source/messaging/messageQueue.c: rings of messages in the memory of
-- their owners, with a queue of waiting receivers and one of waiting senders each.
pub mod State
pub mod Transfer
pub mod Contents
pub mod Ring
pub mod Returns
pub mod Calls
pub mod Handlers
pub mod Waiting
pub mod Destroy
mod Tests
