-- ===== src/PreCommit.antt =====
-- The check of staged changes for private keys (scripts/pre-commit-check.ts).
pub mod Keys
pub mod Diff
pub mod Check
pub mod Scan
pub mod Hunks
pub mod Tokens
