-- ===== src/Governance/History.antt =====
-- All tasks, run one after another on any networks, by any people, failing or not.
use ocn_registry_v.Base.{ℕ, String, Option, List, [], ◌∷◌}
use ocn_registry_v.Base.Exec.{Moves}
use ocn_registry_v.Governance.Storage.{Proposal, Proposals, load_proposals}
use ocn_registry_v.Governance.Chain.{Chain, World, Request}
use ocn_registry_v.Governance.Tasks
use ocn_registry_v.Governance.Tasks.{
  carry_out, chosen_proposal, propose_amount, propose_set_verifier, vote_from, queue_proposal,
  execute_proposal, fast_forward,
}
use ocn_registry_v.Governance.Frame.{
  AnyRequest-PermitsMining, vote_from-Moves, carry_out-Moves, fast_forward-Moves,
}
use ocn_registry_v.Governance.Once.{
  IsOnce, KeepsOnce, KeepsOnce-IsPreorder, send-KeepsOnce, propose_amount-KeepsOnce,
  propose_set_verifier-KeepsOnce,
}

pub data Command : Type 0 where
  propose : Option ℕ → Option String → Command
  set_verifier : String → Option String → Command
  vote : Option String → Option ℕ → Command
  queue execute : Option String → Command
  ff : ℕ → Command

-- `hardhat --network NETWORK TASK …`: what it returns or throws is dropped.
unfoldable pub run : Chain → String → Command → World → World
run C network (propose amount descr) w = (propose_amount C network amount descr w).1
run C network (set_verifier verifier descr) w = (propose_set_verifier C network verifier descr w).1
run C network (vote id way) w = (Tasks.vote C network id way w).1
run C network (queue id) w = (queue_proposal C network id w).1
run C network (execute id) w = (execute_proposal C network id w).1
run C network (ff blocks) w = (fast_forward C network blocks w).1

-- Each task meets a chain of its own: networks differ, and so does one network from task to task.
unfoldable pub run_all : List (Chain × String × Command) → World → World
run_all [] w = w
run_all ((C, network, command) ∷ rest) w = run_all rest (run C network command w)

module _ (C : Chain) (network : String) where
  vote_from-KeepsOnce :
      (storage : Proposals) (id : Option String) (way : Option ℕ)
      → Moves KeepsOnce (vote_from C network storage id way)
  vote_from-KeepsOnce storage id way =
      vote_from-Moves C network KeepsOnce-IsPreorder (send-KeepsOnce C) AnyRequest-PermitsMining
        storage id way (λ voted reason e. tt)

  carry_out-KeepsOnce :
      (request : List String → List ℕ → List String → String → Request) (p : Option Proposal)
      → Moves KeepsOnce (carry_out C network request p)
  carry_out-KeepsOnce request p =
      carry_out-Moves C network KeepsOnce-IsPreorder (send-KeepsOnce C) AnyRequest-PermitsMining
        request p (λ ts vs cs h. tt)

  ff-KeepsOnce : (blocks : ℕ) → Moves KeepsOnce (fast_forward C network blocks)
  ff-KeepsOnce =
      fast_forward-Moves C network KeepsOnce-IsPreorder (send-KeepsOnce C) AnyRequest-PermitsMining

  run-KeepsOnce : (command : Command) (w : World) → KeepsOnce w (run C network command w)
  unfolding run Tasks.vote queue_proposal execute_proposal
  run-KeepsOnce (propose amount descr) w = (propose_amount-KeepsOnce C network amount descr).at w
  run-KeepsOnce (set_verifier verifier descr) w =
      (propose_set_verifier-KeepsOnce C network verifier descr).at w
  run-KeepsOnce (vote id way) w = (vote_from-KeepsOnce (load_proposals w.file) id way).at w
  run-KeepsOnce (queue id) w =
      (carry_out-KeepsOnce Request.queue (chosen_proposal C network id (load_proposals w.file))).at
        w
  run-KeepsOnce (execute id) w =
      (carry_out-KeepsOnce Request.execute
          (chosen_proposal C network id (load_proposals w.file))).at
        w
  run-KeepsOnce (ff blocks) w = (ff-KeepsOnce blocks).at w

-- Whatever tasks are run on whatever networks, whatever each network answers, and however they end: from a file that lists no call
-- twice on any network, the file never comes to list a call twice on a network.
pub run_all-IsOnce :
    (commands : List (Chain × String × Command)) (w : World)
    → IsOnce (load_proposals w.file)
    → IsOnce (load_proposals (run_all commands w).file)
unfolding run_all
run_all-IsOnce [] w h = h
run_all-IsOnce ((C, network, command) ∷ rest) w h =
    run_all-IsOnce rest (run C network command w) (run-KeepsOnce C network command w h)
