-- ===== src/Outbox.antt =====
-- internal/outbox: events and their envelopes, the retry policy, and the relay's schedule.
pub mod Event
pub mod Backoff
pub mod Publisher
