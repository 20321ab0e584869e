-- ===== src/Contract.antt =====
-- The registry contract (contracts/OcnRegistry.sol) and the validator of registrations
-- (contracts/PartyRegistrationValidator.sol), which the client library calls.
pub mod Access
pub mod State
pub mod Administration
pub mod Administered
pub mod Verifiers
pub mod Validator
pub mod Operations
pub mod Run
pub mod Nodes
pub mod Leads
pub mod Steps
pub mod History
pub mod NodeCalls
pub mod Directory
pub mod Stranded
pub mod Parties
pub mod Certified
pub mod Entries
pub mod PartySteps
pub mod Indexed
pub mod Owners
pub mod PartyList
pub mod Logged
