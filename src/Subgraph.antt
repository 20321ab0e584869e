-- ===== src/Subgraph.antt =====
-- The script that points the subgraph at a deployment (scripts/deployment/update-subgraph-yaml.ts).
pub mod Update
pub mod Script
pub mod Pointed
pub mod Success
