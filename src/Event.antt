-- ===== src/Event.antt =====
-- event/: the event bus.
pub mod Bus
pub mod Delivery
