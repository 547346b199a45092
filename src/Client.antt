-- ===== src/Client.antt =====
-- The client package: routes, and the path of one call.
pub mod Routes
pub mod Execute
pub mod Calls
