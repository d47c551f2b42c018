-- ===== src/Logging.antt =====
-- internal/logging: the ring buffer of recent log entries.
pub mod RingBuffer
pub mod Handlers
pub mod Route
