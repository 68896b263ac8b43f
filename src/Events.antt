-- ===== src/Events.antt =====
-- core/events: the consumers of the event streams.
pub mod Consumer
pub mod Outbox
