-- ===== src/Indexer.antt =====
-- The subgraph: handlers that turn the registry's events into entities
-- (thegraph-indexer/ocn-registry-oli/src).
pub mod Schema
pub mod Handlers
pub mod Events
pub mod Deletion
pub mod Operators
pub mod Rows
pub mod Governor
pub mod Votes
pub mod Contracts
pub mod Certificates
pub mod Watching
