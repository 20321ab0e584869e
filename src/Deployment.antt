-- ===== src/Deployment.antt =====
-- The checks before a deployment, and what the deployment of the registry lets sign certificates.
pub mod Preflight
pub mod Verifiers
pub mod Allowed
pub mod Registry
pub mod HandedOver
pub mod Hardhat
pub mod Scripts
pub mod Ordered
pub mod Copies
pub mod Plans
pub mod Planned
pub mod Finished
pub mod Verification
pub mod Funding
