-- ===== src/Governance/Chain.antt =====
-- The chain as the tasks see it: what they send, and what comes back. The contracts and the client
-- library are not modelled here: each answer is any function of what was sent before.
use ocn_registry_v.Base.{ℕ, String, Option, List, [], ◌∷◌, ◌++◌}
use ocn_registry_v.Base.Exec.{Result, ok, err, Exec, ask}
use ocn_registry_v.Governance.Storage.{Proposals}

pub data Request : Type 0 where
  -- targets, values, calldatas, description
  propose : List String → List ℕ → List String → String → Request
  -- targets, values, calldatas, hash of the description
  queue execute : List String → List ℕ → List String → String → Request
  -- proposal, support, reason
  cast_vote : String → ℕ → String → Request
  evm_mine : Request
  -- `helpers.mine(amount, { interval })`
  mine : ℕ → ℕ → Request
  increase_time : ℕ → Request

pub data Argument : Type 0 where
  number : ℕ → Argument
  address : String → Argument

pub record Chain : Type 0 where
  -- `ethers.getContract(name)`, by its address
  pub contract : List Request → String → Result String
  -- whether a request is taken; it throws if not
  pub accepts : List Request → Request → Result (Unit {0})
  -- `wait(1)`: the `proposalId` in each of the logs
  pub receipt : List Request → Request → Result (List String)
  pub state : List Request → String → Result ℕ
  pub proposal_snapshot : List Request → String → Result ℕ
  pub proposal_deadline : List Request → String → Result ℕ
  pub funding_yearly_amount : List Request → Result ℕ
  pub block_number : List Request → Result ℕ
  -- `interface.encodeFunctionData` of a contract
  pub encode : String → String → List Argument → Result String
  -- `ethers.id`
  pub hash : String → String

-- What has been sent, oldest first, and the file of proposals.
pub record World : Type 0 where
  pub sent : List Request
  pub file : Option Proposals

abbrev pub Task : Type 0 → Type 0
Task A = Exec World A

module _ (C : Chain) where
  abbrev pub answer : {A : Type 0} → (List Request → Result A) → Task A
  answer f = ask (λ w. f w.sent)

  abbrev pub deliver : Request → World → Result (Unit {0}) → Result (Unit {0}) × World
  deliver r w (ok _) = (ok tt, record w { sent = w.sent ++ r ∷ [] })
  deliver r w (err message) = (err message, w)

  unfoldable pub send : Request → Task (Unit {0})
  send r w = deliver r w (C.accepts w.sent r)

  abbrev pub wait : Request → Task (List String)
  wait r = answer (λ sent. C.receipt sent r)

unfoldable pub write_file : Proposals → Task (Unit {0})
write_file proposals w = (ok tt, record w { file = Option.some proposals })
