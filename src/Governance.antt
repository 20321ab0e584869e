-- ===== src/Governance.antt =====
-- The governance tasks (tasks/*.ts, helper/moveBlocks.ts, helper/moveTime.ts) and the file in which
-- they remember proposals (helper/storeProposals.ts).
pub mod Storage
pub mod Chain
pub mod Tasks
pub mod Frame
pub mod Once
pub mod Voting
pub mod Again
pub mod History
pub mod Submitting
pub mod Carrying
pub mod Mining
