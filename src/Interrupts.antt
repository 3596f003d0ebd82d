-- ===== src/Interrupts.antt =====
-- Interrupts and their event handlers, kernel/source/interrupt/irq.c.
pub mod State
pub mod Events
pub mod Handler
pub mod Posted
mod Tests
