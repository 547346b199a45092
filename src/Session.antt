-- ===== src/Session.antt =====
-- The trade session: the state machine (internal/session) and its manager (pkg/hstong/session.go).
pub mod Machine
pub mod Manager
pub mod Gate
