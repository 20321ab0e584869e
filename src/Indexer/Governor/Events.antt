-- ===== src/Indexer/Governor/Events.antt =====
-- The events of the governor that thegraph-indexer/ocn-registry-oli/src/ocn-governor.ts reads.
use ocn_registry_v.Base.{ℕ, String, List}
use ocn_registry_v.Indexer.Schema.{Bytes, Meta}

pub record ProposalCanceledEvent : Type 0 where
  pub meta : Meta
  pub proposal_id : ℕ

pub record ProposalCreatedEvent : Type 0 where
  pub meta : Meta
  pub proposal_id : ℕ
  pub proposer : Bytes
  pub targets : List Bytes
  pub values : List ℕ
  pub signatures : List String
  pub calldatas : List Bytes
  pub vote_start : ℕ
  pub vote_end : ℕ
  pub description : String

pub record ProposalExecutedEvent : Type 0 where
  pub meta : Meta
  pub proposal_id : ℕ

pub record ProposalQueuedEvent : Type 0 where
  pub meta : Meta
  pub proposal_id : ℕ
  pub eta_seconds : ℕ

pub record ProposalThresholdSetEvent : Type 0 where
  pub meta : Meta
  pub old_proposal_threshold : ℕ
  pub new_proposal_threshold : ℕ

pub record QuorumNumeratorUpdatedEvent : Type 0 where
  pub meta : Meta
  pub old_quorum_numerator : ℕ
  pub new_quorum_numerator : ℕ

pub record TimelockChangeEvent : Type 0 where
  pub meta : Meta
  pub old_timelock : Bytes
  pub new_timelock : Bytes

pub record VoteCastEvent : Type 0 where
  pub meta : Meta
  pub voter : Bytes
  pub proposal_id : ℕ
  pub support : ℕ
  pub weight : ℕ
  pub reason : String

pub record VoteCastWithParamsEvent : Type 0 where
  pub meta : Meta
  pub voter : Bytes
  pub proposal_id : ℕ
  pub support : ℕ
  pub weight : ℕ
  pub reason : String
  pub params : Bytes

pub record VotingDelaySetEvent : Type 0 where
  pub meta : Meta
  pub old_voting_delay : ℕ
  pub new_voting_delay : ℕ

pub record VotingPeriodSetEvent : Type 0 where
  pub meta : Meta
  pub old_voting_period : ℕ
  pub new_voting_period : ℕ
