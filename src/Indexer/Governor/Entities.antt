-- ===== src/Indexer/Governor/Entities.antt =====
-- The entities of the governor's events (thegraph-indexer/ocn-registry-oli/schema.graphql), and their
-- tables.
use ocn_registry_v.Base.{ℕ, String, List, []}
use ocn_registry_v.Base.Dict.{Dict}
use ocn_registry_v.Indexer.Schema.{Bytes, Origin}

pub record ProposalCanceled : Type 0 where
  pub proposal_id : ℕ
  pub origin : Origin

pub record ProposalCreated : Type 0 where
  pub proposal_id : ℕ
  pub proposer : Bytes
  pub targets : List Bytes
  pub values : List ℕ
  pub signatures : List String
  pub calldatas : List Bytes
  pub vote_start : ℕ
  pub vote_end : ℕ
  pub description : String
  pub origin : Origin

pub record ProposalExecuted : Type 0 where
  pub proposal_id : ℕ
  pub origin : Origin

pub record ProposalQueued : Type 0 where
  pub proposal_id : ℕ
  pub eta_seconds : ℕ
  pub origin : Origin

pub record ProposalThresholdSet : Type 0 where
  pub old_proposal_threshold : ℕ
  pub new_proposal_threshold : ℕ
  pub origin : Origin

pub record QuorumNumeratorUpdated : Type 0 where
  pub old_quorum_numerator : ℕ
  pub new_quorum_numerator : ℕ
  pub origin : Origin

pub record TimelockChange : Type 0 where
  pub old_timelock : Bytes
  pub new_timelock : Bytes
  pub origin : Origin

pub record VoteCast : Type 0 where
  pub voter : Bytes
  pub proposal_id : ℕ
  pub support : ℕ
  pub weight : ℕ
  pub reason : String
  pub origin : Origin

pub record VoteCastWithParams : Type 0 where
  pub voter : Bytes
  pub proposal_id : ℕ
  pub support : ℕ
  pub weight : ℕ
  pub reason : String
  pub params : Bytes
  pub origin : Origin

pub record VotingDelaySet : Type 0 where
  pub old_voting_delay : ℕ
  pub new_voting_delay : ℕ
  pub origin : Origin

pub record VotingPeriodSet : Type 0 where
  pub old_voting_period : ℕ
  pub new_voting_period : ℕ
  pub origin : Origin

pub record GovernorStore : Type 0 where
  pub eip712_domain_changes : Dict Bytes Origin
  pub proposal_canceled_table : Dict Bytes ProposalCanceled
  pub proposal_created_table : Dict Bytes ProposalCreated
  pub proposal_executed_table : Dict Bytes ProposalExecuted
  pub proposal_queued_table : Dict Bytes ProposalQueued
  pub proposal_threshold_set_table : Dict Bytes ProposalThresholdSet
  pub quorum_numerator_updated_table : Dict Bytes QuorumNumeratorUpdated
  pub timelock_change_table : Dict Bytes TimelockChange
  pub vote_cast_table : Dict Bytes VoteCast
  pub vote_cast_with_params_table : Dict Bytes VoteCastWithParams
  pub voting_delay_set_table : Dict Bytes VotingDelaySet
  pub voting_period_set_table : Dict Bytes VotingPeriodSet

abbrev pub no_entities : GovernorStore
no_entities = record {
  eip712_domain_changes = [];
  proposal_canceled_table = [];
  proposal_created_table = [];
  proposal_executed_table = [];
  proposal_queued_table = [];
  proposal_threshold_set_table = [];
  quorum_numerator_updated_table = [];
  timelock_change_table = [];
  vote_cast_table = [];
  vote_cast_with_params_table = [];
  voting_delay_set_table = [];
  voting_period_set_table = [];
}
