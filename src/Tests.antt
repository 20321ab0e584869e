-- ===== src/Tests.antt =====
-- Runs of the model on concrete inputs, which the theorems apply to.
pub mod Governance
pub mod Client
pub mod Refusals
pub mod Indexer
pub mod PreCommit
pub mod Staking
pub mod Subgraph
pub mod Contract
pub mod Directory
pub mod Parties
pub mod CommandLine
pub mod Deployment
pub mod Administration
pub mod Deployed
pub mod Watching
