-- ===== src/Client.antt =====
-- The client library (src/lib): the wrapper of a contract and the registry behind it.
pub mod Failures
pub mod Handling
pub mod Wrapper
pub mod Outcomes
pub mod Types
pub mod Registry
pub mod Sending
pub mod Nodes
pub mod Payments
pub mod Refusals
pub mod Oracle
