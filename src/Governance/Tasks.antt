-- ===== src/Governance/Tasks.antt =====
-- tasks/propose.ts, proposeSetVerifier.ts, vote.ts, queue.ts, execute.ts, fastForward.ts,
-- helper/moveBlocks.ts and moveTime.ts. What is only printed is left out, but each query that may
-- throw is made.
use ocn_registry_v.Base.{
  ℕ, zero, suc, ◌+◌, String, ◌<>◌, Bool, ◌||◌, Option, none, some, List, [], ◌∷◌, ◌==◌, string_eq,
  nat_eq, contains, truthy, is_some, if◌then◌else◌,
}
use ocn_registry_v.Base.Exec.{pure, throw, ask, ◌>>=◌, ◌>>◌, when}
use ocn_registry_v.Governance.Storage.{
  Proposal, Proposals, load_proposals, store_proposal, get_proposal_by_encoded_function,
  get_proposal_by_id, get_last_proposal,
}
use ocn_registry_v.Governance.Chain.{
  Request, propose, queue, execute, cast_vote, evm_mine, mine, increase_time, number, address,
  Chain, Task, answer, send, wait, write_file,
}

abbrev pub development_chains : List String
development_chains = "hardhat" ∷ "localhost" ∷ "ganache" ∷ "minikube" ∷ []

abbrev pub min_delay : ℕ
min_delay = 3600

abbrev pub voting_period : ℕ
voting_period = 5

abbrev pub voting_delay : ℕ
voting_delay = 0

abbrev pub new_yearly_amount : ℕ
new_yearly_amount = 104

abbrev pub proposal_description : String
proposal_description = "Proposal 104 in the Box!"

-- `x ? x : d` on an optional argument
abbrev pub given_text : Option String → String → String
given_text none d = d
given_text (some s) d = if truthy s then s else d

abbrev pub given_number : Option ℕ → ℕ → ℕ
given_number none d = d
given_number (some zero) d = d
given_number (some (suc n)) d = suc n

abbrev pub verifier_description : String → Option String → String
verifier_description verifier descr =
    given_text descr ("Proposal to set new verifier: " <> verifier)

-- `new ProposalStorage()`, which reads the file, and what is done with it.
abbrev pub with_storage : {A : Type 0} → (Proposals → Task A) → Task A
with_storage f w = f (load_proposals w.file) w

-- `eventLogs[0].args.proposalId`
abbrev pub first : List String → Task String
first [] = throw "Cannot read properties of undefined"
first (id ∷ ids) = pure id

-- vote.ts names the case of no logs.
abbrev pub first_log : List String → Task String
first_log [] = throw "No event logs found"
first_log (id ∷ ids) = pure id

-- `?.proposalId`, and the empty text for `undefined`: both are false to the test that follows.
abbrev pub id_of : Option Proposal → String
id_of none = ""
id_of (some p) = p.proposal_id

module _ (C : Chain) (network : String) where
  unfoldable pub is_development : Bool
  is_development = contains development_chains network

  -- the loop of `moveBlocks`, and of `ff`
  unfoldable pub mine_loop : ℕ → Task (Unit {0})
  mine_loop zero = pure tt
  mine_loop (suc amount) = do send C evm_mine; mine_loop amount

  unfoldable pub move_blocks : ℕ → Task (Unit {0})
  move_blocks amount = if network == "hardhat" then send C (mine amount 15) else mine_loop amount

  unfoldable pub move_time : ℕ → Task (Unit {0})
  move_time amount = send C (increase_time amount)

  -- The part of `ff` on a network where it may run.
  unfoldable pub fast_forward_here : ℕ → Task (Unit {0})
  fast_forward_here blocks = do
    answer C C.block_number
    mine_loop blocks
    answer C C.block_number
    pure tt

  unfoldable pub fast_forward : ℕ → Task (Unit {0})
  fast_forward blocks =
      if network == "localhost" || network == "hardhat" then fast_forward_here blocks else pure tt

  -- From the wait for the receipt on.
  unfoldable pub confirm_proposal : Proposals → Request → String → String → Task (Option String)
  confirm_proposal storage request encoded description = do
    when is_development (move_blocks (voting_delay + 1))
    ids ← wait C request
    id ← first ids
    answer C (λ sent. C.state sent id)
    answer C (λ sent. C.proposal_snapshot sent id)
    answer C (λ sent. C.proposal_deadline sent id)
    write_file (store_proposal network id encoded description storage)
    pure (some id)

  -- From the check for an earlier proposal on; both proposing tasks go through these steps.
  unfoldable pub submit_proposal : Proposals → String → String → String → Task (Option String)
  submit_proposal storage target encoded description =
      if is_some (get_proposal_by_encoded_function network encoded storage) then pure none else do
        let request = propose (target ∷ []) (0 ∷ []) (encoded ∷ []) description
        send C request
        confirm_proposal storage request encoded description

  unfoldable pub propose_amount_from : Proposals → Option ℕ → Option String → Task (Option String)
  propose_amount_from storage amount descr = do
    answer C (λ sent. C.contract sent "OcnGovernor")
    manager ← answer C (λ sent. C.contract sent "OcnPaymentManager")
    encoded ← ask (λ w.
        C.encode "OcnPaymentManager" "setFundingYearlyAmount"
          (number (given_number amount new_yearly_amount) ∷ []))
    submit_proposal storage manager encoded (given_text descr proposal_description)

  unfoldable pub propose_amount : Option ℕ → Option String → Task (Option String)
  propose_amount amount descr = with_storage (λ storage. propose_amount_from storage amount descr)

  unfoldable pub propose_set_verifier_from :
      Proposals → String → Option String → Task (Option String)
  propose_set_verifier_from storage verifier descr = do
    answer C (λ sent. C.contract sent "OcnGovernor")
    registry ← answer C (λ sent. C.contract sent "OcnRegistry")
    encoded ← ask (λ w. C.encode "OcnRegistry" "setVerifier" (address verifier ∷ []))
    submit_proposal storage registry encoded (verifier_description verifier descr)

  unfoldable pub propose_set_verifier : String → Option String → Task (Option String)
  propose_set_verifier verifier descr =
      with_storage (λ storage. propose_set_verifier_from storage verifier descr)

  -- From the vote on, where voting is allowed.
  unfoldable pub cast : String → ℕ → String → Task (Unit {0})
  cast id way reason = do
    let request = cast_vote id way reason
    send C request
    ids ← wait C request
    voted ← first_log ids
    answer C (λ sent. C.state sent voted)
    when is_development (move_blocks (voting_period + 1))
    answer C (λ sent. C.state sent voted)
    pure tt

  -- The part that vote.ts goes through once it has a proposal.
  unfoldable pub vote_for : String → ℕ → String → Task (Unit {0})
  vote_for id way reason = do
    answer C (λ sent. C.contract sent "OcnGovernor")
    proposal_state ← answer C (λ sent. C.state sent id)
    if proposal_state == 1 then cast id way reason else pure tt

  unfoldable pub vote_from : Proposals → Option String → Option ℕ → Task (Unit {0})
  vote_from storage id way =
      let chosen = given_text id (id_of (get_last_proposal network storage)) in
      when (truthy chosen) (vote_for chosen (given_number way 1) "OCN Node costs increased")

  unfoldable pub vote : Option String → Option ℕ → Task (Unit {0})
  vote id way = with_storage (λ storage. vote_from storage id way)

  -- `taskArgs.id ? getProposalById : getLastProposal`
  unfoldable pub chosen_proposal : Option String → Proposals → Option Proposal
  chosen_proposal none storage = get_last_proposal network storage
  chosen_proposal (some id) storage =
      if truthy id then get_proposal_by_id network id storage else get_last_proposal network storage

  -- From the wait for the receipt on.
  unfoldable pub finish_carrying : Request → Task (Unit {0})
  finish_carrying filled = do
    wait C filled
    when is_development (do move_time (min_delay + 1); move_blocks 1)
    answer C C.funding_yearly_amount
    pure tt

  -- `queue` of queue.ts and `execute` of execute.ts differ in the request alone.
  unfoldable pub carry_out :
      (List String → List ℕ → List String → String → Request) → Option Proposal → Task (Unit {0})
  carry_out request none = pure tt
  carry_out request (some proposal) = do
    manager ← answer C (λ sent. C.contract sent "OcnPaymentManager")
    answer C (λ sent. C.contract sent "OcnGovernor")
    let filled =
        request (manager ∷ []) (0 ∷ []) (proposal.encoded_function ∷ [])
          (C.hash proposal.description)
    send C filled
    finish_carrying filled

  unfoldable pub queue_proposal : Option String → Task (Unit {0})
  queue_proposal id = with_storage (λ storage. carry_out queue (chosen_proposal id storage))

  unfoldable pub execute_proposal : Option String → Task (Unit {0})
  execute_proposal id = with_storage (λ storage. carry_out execute (chosen_proposal id storage))
