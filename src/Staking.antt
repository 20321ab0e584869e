-- ===== src/Staking.antt =====
-- The contract of the payment manager (contracts/OcnPaymentManager.sol): parties stake a yearly amount
-- in a stablecoin, and after a period the stake goes to the operator of the registry.
pub mod State
pub mod Operations
pub mod Effects
pub mod Reached
pub mod Solvent
pub mod Locked
pub mod Status
pub mod Ownership
pub mod Client
