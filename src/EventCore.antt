-- ===== src/EventCore.antt =====
-- event_driven_core/: the queues and the event bus.
pub mod Spsc
pub mod Mpsc
pub mod Bus
mod Tests
