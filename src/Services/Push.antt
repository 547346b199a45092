-- ===== src/Services/Push.antt =====
-- pkg/services/push.go.
pub mod Keys
pub mod Topics
pub mod Delivery
pub mod Orders
pub mod Stream
