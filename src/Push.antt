-- ===== src/Push.antt =====
-- The TCP push channel (internal/push): framing, verification, decoding, the read loop, the queues
-- of the handlers, the client's life, and freshness.
pub mod Frame
pub mod Verify
pub mod Decode
pub mod ReadLoop
pub mod Freshness
pub mod Queue
pub mod Connection
pub mod Backoff
