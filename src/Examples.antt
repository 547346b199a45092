-- ===== src/Examples.antt =====
-- The theorems at concrete inputs, one module for each part of the program.
mod Resilience
mod Push
mod Stream
mod Session
mod Transport
mod Calls
mod Domain
mod Trading
mod Desks
mod Recovery
