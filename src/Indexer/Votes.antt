-- ===== src/Indexer/Votes.antt =====
-- The record of votes after any events of the governor.
use mathlib.Core.List.{append-nil, append_assoc}
use ocn_registry_v.Base.{◌≡◌, ◌≢◌, refl, sym, ap, ◌∙◌, arith, none, List, [], ◌∷◌, ◌++◌}
use ocn_registry_v.Base.Dict.{Dict, lookup, insert, lookup-insert}
use ocn_registry_v.Base.Lists.{All}
use ocn_registry_v.Indexer.Schema.{Bytes, bytes_eq, Host, Meta}
use ocn_registry_v.Indexer.Handlers.{origin_of, id_of}
use ocn_registry_v.Indexer.Governor.Entities.{GovernorStore, VoteCast, no_entities}
use ocn_registry_v.Indexer.Governor.Handling.{
  GovernorEvent, eip712_domain_changed, proposal_canceled, proposal_created, proposal_executed,
  proposal_queued, proposal_threshold_set, quorum_numerator_updated, timelock_change, vote_cast,
  vote_cast_with_params, voting_delay_set, voting_period_set, handle_governor, handle_governor_all,
  handle_eip712_domain_changed, handle_proposal_canceled, handle_proposal_created,
  handle_proposal_executed, handle_proposal_queued, handle_proposal_threshold_set,
  handle_quorum_numerator_updated, handle_timelock_change, handle_vote_cast,
  handle_vote_cast_with_params, handle_voting_delay_set, handle_voting_period_set,
}

pub insert-fresh :
    {V : Type 0} (k : Bytes) (v : V) (d : Dict Bytes V)
    → lookup k d ≡ none
    → insert k v d ≡ d ++ (k, v) ∷ []
unfolding lookup insert
insert-fresh k v [] h = refl
insert-fresh k v ((j, w) ∷ d) h = ground (arith, insert-fresh k v d, h)

abbrev pub governor_meta : GovernorEvent → Meta
governor_meta (eip712_domain_changed m) = m
governor_meta (proposal_canceled e) = e.meta
governor_meta (proposal_created e) = e.meta
governor_meta (proposal_executed e) = e.meta
governor_meta (proposal_queued e) = e.meta
governor_meta (proposal_threshold_set e) = e.meta
governor_meta (quorum_numerator_updated e) = e.meta
governor_meta (timelock_change e) = e.meta
governor_meta (vote_cast e) = e.meta
governor_meta (vote_cast_with_params e) = e.meta
governor_meta (voting_delay_set e) = e.meta
governor_meta (voting_period_set e) = e.meta

module _ (H : Host) where
  abbrev pub governor_id : GovernorEvent → Bytes
  governor_id e = id_of H (governor_meta e)

  abbrev pub AreApart : List GovernorEvent → Type 0
  AreApart [] = Unit
  AreApart (e ∷ es) = All (λ x. governor_id x ≢ governor_id e) es × AreApart es

  -- The votes without parameters among the events, with their identifiers.
  unfoldable pub votes_in : List GovernorEvent → Dict Bytes VoteCast
  votes_in [] = []
  votes_in (vote_cast e ∷ es) =
      (
        id_of H e.meta,
        record {
          voter = e.voter;
          proposal_id = e.proposal_id;
          support = e.support;
          weight = e.weight;
          reason = e.reason;
          origin = origin_of e.meta;
        },
      )
      ∷ votes_in es
  votes_in (_ ∷ es) = votes_in es

  abbrev AreNew : GovernorStore → List GovernorEvent → Type 0
  AreNew s es = All (λ e. lookup (governor_id e) s.vote_cast_table ≡ none) es

  new_after :
      (e : GovernorEvent) (s : GovernorStore) (x : GovernorEvent)
      → governor_id x ≢ governor_id e
      → lookup (governor_id x) s.vote_cast_table ≡ none
      → lookup (governor_id x) (handle_governor H e s).vote_cast_table ≡ none
  unfolding handle_governor handle_eip712_domain_changed handle_proposal_canceled
      handle_proposal_created handle_proposal_executed handle_proposal_queued
      handle_proposal_threshold_set handle_quorum_numerator_updated handle_timelock_change
      handle_vote_cast handle_vote_cast_with_params handle_voting_delay_set handle_voting_period_set
  new_after (vote_cast e) s x apart fresh = rw lookup-insert (ground (arith, apart, fresh))
  new_after _ s x apart fresh = fresh

  AreNew-after :
      (e : GovernorEvent) (s : GovernorStore) (es : List GovernorEvent)
      → All (λ x. governor_id x ≢ governor_id e) es
      → AreNew s es
      → AreNew (handle_governor H e s) es
  AreNew-after e s [] apart fresh = tt
  AreNew-after e s (x ∷ es) (a, apart) (f, fresh) =
      (new_after e s x a f, AreNew-after e s es apart fresh)

  table_after :
      (e : GovernorEvent) (s : GovernorStore)
      → lookup (governor_id e) s.vote_cast_table ≡ none
      → (handle_governor H e s).vote_cast_table ≡ s.vote_cast_table ++ votes_in (e ∷ [])
  unfolding votes_in handle_governor handle_eip712_domain_changed handle_proposal_canceled
      handle_proposal_created handle_proposal_executed handle_proposal_queued
      handle_proposal_threshold_set handle_quorum_numerator_updated handle_timelock_change
      handle_vote_cast handle_vote_cast_with_params handle_voting_delay_set handle_voting_period_set
  table_after (vote_cast e) s fresh = insert-fresh (id_of H e.meta) _ s.vote_cast_table fresh
  table_after _ s fresh = sym (append-nil s.vote_cast_table)

  votes_in-cons :
      (e : GovernorEvent) (es : List GovernorEvent)
      → votes_in (e ∷ []) ++ votes_in es ≡ votes_in (e ∷ es)
  unfolding votes_in
  votes_in-cons (vote_cast e) es = refl
  votes_in-cons _ es = refl

  votes_from :
      (es : List GovernorEvent) (s : GovernorStore)
      → AreApart es
      → AreNew s es
      → (handle_governor_all H es s).vote_cast_table ≡ s.vote_cast_table ++ votes_in es
  unfolding handle_governor_all votes_in
  votes_from [] s apart fresh = sym (append-nil s.vote_cast_table)
  votes_from (e ∷ es) s (a, apart) (f, fresh) =
      votes_from es (handle_governor H e s) apart (AreNew-after e s es a fresh)
      ∙ ap (λ d. d ++ votes_in es) (table_after e s f)
      ∙ append_assoc s.vote_cast_table (votes_in (e ∷ [])) (votes_in es)
      ∙ ap (λ d. s.vote_cast_table ++ d) (votes_in-cons e es)

  none_there : (es : List GovernorEvent) → AreNew no_entities es
  unfolding lookup
  none_there [] = tt
  none_there (e ∷ es) = (refl, none_there es)

  -- After any events of the governor whose identifiers differ, the table of votes holds one entity for
  -- each vote without parameters, in the order of the events, with the voter, proposal, support, weight
  -- and reason of the event, and nothing else: no vote is lost or overwritten.
  pub votes_replay :
      (es : List GovernorEvent)
      → AreApart es
      → (handle_governor_all H es no_entities).vote_cast_table ≡ votes_in es
  votes_replay es apart = votes_from es no_entities apart (none_there es)
