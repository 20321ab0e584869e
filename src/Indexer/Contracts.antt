-- ===== src/Indexer/Contracts.antt =====
-- The events of the certificate verifier, the stable coin and the proxy in the subgraph.
pub mod Entities
pub mod Handling
pub mod Written
pub mod Replay
