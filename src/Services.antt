-- ===== src/Services.antt =====
-- The services over the client (pkg/services).
pub mod Account
pub mod Algo
pub mod Checks
pub mod Futures
pub mod Validation
pub mod Trading
pub mod Push
pub mod Registry
pub mod Wire
