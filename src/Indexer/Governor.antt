-- ===== src/Indexer/Governor.antt =====
-- The governor's events in the subgraph.
pub mod Events
pub mod Entities
pub mod Handling
