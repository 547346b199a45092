-- ===== src/Domain.antt =====
-- The domain package (pkg/domain).
pub mod Order
pub mod Symbol
pub mod Ticks
pub mod Price
