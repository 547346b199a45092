-- ===== src/Resilience.antt =====
-- The optional hardening layer (internal/resilience): circuit breaker and retry policy.
pub mod Breaker
pub mod Retry
