-- ===== src/Indexer/Governor/Handling.antt =====
-- thegraph-indexer/ocn-registry-oli/src/ocn-governor.ts: the handlers of the governor's events. Each
-- saves one entity.
use ocn_registry_v.Base.{List, [], ◌∷◌}
use ocn_registry_v.Base.Dict.{insert}
use ocn_registry_v.Indexer.Schema.{bytes_eq, Host, Meta}
use ocn_registry_v.Indexer.Handlers.{origin_of, id_of}
use ocn_registry_v.Indexer.Governor.Entities.{GovernorStore}
use ocn_registry_v.Indexer.Governor.Events.{
  ProposalCanceledEvent, ProposalCreatedEvent, ProposalExecutedEvent, ProposalQueuedEvent,
  ProposalThresholdSetEvent, QuorumNumeratorUpdatedEvent, TimelockChangeEvent, VoteCastEvent,
  VoteCastWithParamsEvent, VotingDelaySetEvent, VotingPeriodSetEvent,
}

module _ (H : Host) where
  unfoldable pub handle_eip712_domain_changed : Meta → GovernorStore → GovernorStore
  handle_eip712_domain_changed m s = record s {
    eip712_domain_changes = insert (id_of H m) (origin_of m) s.eip712_domain_changes;
  }

  unfoldable pub handle_proposal_canceled : ProposalCanceledEvent → GovernorStore → GovernorStore
  handle_proposal_canceled e s = record s {
    proposal_canceled_table =
        insert (id_of H e.meta) (record { proposal_id = e.proposal_id; origin = origin_of e.meta })
          s.proposal_canceled_table;
  }

  unfoldable pub handle_proposal_created : ProposalCreatedEvent → GovernorStore → GovernorStore
  handle_proposal_created e s = record s {
    proposal_created_table =
        insert (id_of H e.meta)
          (record {
            proposal_id = e.proposal_id;
            proposer = e.proposer;
            targets = e.targets;
            values = e.values;
            signatures = e.signatures;
            calldatas = e.calldatas;
            vote_start = e.vote_start;
            vote_end = e.vote_end;
            description = e.description;
            origin = origin_of e.meta;
          })
          s.proposal_created_table;
  }

  unfoldable pub handle_proposal_executed : ProposalExecutedEvent → GovernorStore → GovernorStore
  handle_proposal_executed e s = record s {
    proposal_executed_table =
        insert (id_of H e.meta) (record { proposal_id = e.proposal_id; origin = origin_of e.meta })
          s.proposal_executed_table;
  }

  unfoldable pub handle_proposal_queued : ProposalQueuedEvent → GovernorStore → GovernorStore
  handle_proposal_queued e s = record s {
    proposal_queued_table =
        insert (id_of H e.meta)
          (record {
            proposal_id = e.proposal_id;
            eta_seconds = e.eta_seconds;
            origin = origin_of e.meta;
          })
          s.proposal_queued_table;
  }

  unfoldable pub handle_proposal_threshold_set :
      ProposalThresholdSetEvent → GovernorStore → GovernorStore
  handle_proposal_threshold_set e s = record s {
    proposal_threshold_set_table =
        insert (id_of H e.meta)
          (record {
            old_proposal_threshold = e.old_proposal_threshold;
            new_proposal_threshold = e.new_proposal_threshold;
            origin = origin_of e.meta;
          })
          s.proposal_threshold_set_table;
  }

  unfoldable pub handle_quorum_numerator_updated :
      QuorumNumeratorUpdatedEvent → GovernorStore → GovernorStore
  handle_quorum_numerator_updated e s = record s {
    quorum_numerator_updated_table =
        insert (id_of H e.meta)
          (record {
            old_quorum_numerator = e.old_quorum_numerator;
            new_quorum_numerator = e.new_quorum_numerator;
            origin = origin_of e.meta;
          })
          s.quorum_numerator_updated_table;
  }

  unfoldable pub handle_timelock_change : TimelockChangeEvent → GovernorStore → GovernorStore
  handle_timelock_change e s = record s {
    timelock_change_table =
        insert (id_of H e.meta)
          (record {
            old_timelock = e.old_timelock;
            new_timelock = e.new_timelock;
            origin = origin_of e.meta;
          })
          s.timelock_change_table;
  }

  unfoldable pub handle_vote_cast : VoteCastEvent → GovernorStore → GovernorStore
  handle_vote_cast e s = record s {
    vote_cast_table =
        insert (id_of H e.meta)
          (record {
            voter = e.voter;
            proposal_id = e.proposal_id;
            support = e.support;
            weight = e.weight;
            reason = e.reason;
            origin = origin_of e.meta;
          })
          s.vote_cast_table;
  }

  unfoldable pub handle_vote_cast_with_params :
      VoteCastWithParamsEvent → GovernorStore → GovernorStore
  handle_vote_cast_with_params e s = record s {
    vote_cast_with_params_table =
        insert (id_of H e.meta)
          (record {
            voter = e.voter;
            proposal_id = e.proposal_id;
            support = e.support;
            weight = e.weight;
            reason = e.reason;
            params = e.params;
            origin = origin_of e.meta;
          })
          s.vote_cast_with_params_table;
  }

  unfoldable pub handle_voting_delay_set : VotingDelaySetEvent → GovernorStore → GovernorStore
  handle_voting_delay_set e s = record s {
    voting_delay_set_table =
        insert (id_of H e.meta)
          (record {
            old_voting_delay = e.old_voting_delay;
            new_voting_delay = e.new_voting_delay;
            origin = origin_of e.meta;
          })
          s.voting_delay_set_table;
  }

  unfoldable pub handle_voting_period_set : VotingPeriodSetEvent → GovernorStore → GovernorStore
  handle_voting_period_set e s = record s {
    voting_period_set_table =
        insert (id_of H e.meta)
          (record {
            old_voting_period = e.old_voting_period;
            new_voting_period = e.new_voting_period;
            origin = origin_of e.meta;
          })
          s.voting_period_set_table;
  }

-- The events of the governor's data source in subgraph.yaml.
pub data GovernorEvent : Type 0 where
  eip712_domain_changed : Meta → GovernorEvent
  proposal_canceled : ProposalCanceledEvent → GovernorEvent
  proposal_created : ProposalCreatedEvent → GovernorEvent
  proposal_executed : ProposalExecutedEvent → GovernorEvent
  proposal_queued : ProposalQueuedEvent → GovernorEvent
  proposal_threshold_set : ProposalThresholdSetEvent → GovernorEvent
  quorum_numerator_updated : QuorumNumeratorUpdatedEvent → GovernorEvent
  timelock_change : TimelockChangeEvent → GovernorEvent
  vote_cast : VoteCastEvent → GovernorEvent
  vote_cast_with_params : VoteCastWithParamsEvent → GovernorEvent
  voting_delay_set : VotingDelaySetEvent → GovernorEvent
  voting_period_set : VotingPeriodSetEvent → GovernorEvent

unfoldable pub handle_governor : Host → GovernorEvent → GovernorStore → GovernorStore
handle_governor H (eip712_domain_changed m) s = handle_eip712_domain_changed H m s
handle_governor H (proposal_canceled e) s = handle_proposal_canceled H e s
handle_governor H (proposal_created e) s = handle_proposal_created H e s
handle_governor H (proposal_executed e) s = handle_proposal_executed H e s
handle_governor H (proposal_queued e) s = handle_proposal_queued H e s
handle_governor H (proposal_threshold_set e) s = handle_proposal_threshold_set H e s
handle_governor H (quorum_numerator_updated e) s = handle_quorum_numerator_updated H e s
handle_governor H (timelock_change e) s = handle_timelock_change H e s
handle_governor H (vote_cast e) s = handle_vote_cast H e s
handle_governor H (vote_cast_with_params e) s = handle_vote_cast_with_params H e s
handle_governor H (voting_delay_set e) s = handle_voting_delay_set H e s
handle_governor H (voting_period_set e) s = handle_voting_period_set H e s

unfoldable pub handle_governor_all : Host → List GovernorEvent → GovernorStore → GovernorStore
handle_governor_all H [] s = s
handle_governor_all H (e ∷ es) s = handle_governor_all H es (handle_governor H e s)
