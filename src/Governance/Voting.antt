-- ===== src/Governance/Voting.antt =====
-- What the voting task sends, and when.
use ocn_registry_v.Base.{ℕ, zero, suc, ◌<◌, ◌≡◌, ◌≢◌, String, Option, none, some, arith, nat_eq}
use ocn_registry_v.Base.Exec.{ok, ◌>>=◌}
use ocn_registry_v.Governance.Storage.{load_proposals, get_last_proposal}
use ocn_registry_v.Governance.Chain.{
  Request, propose, queue, execute, cast_vote, evm_mine, mine, increase_time, Chain, World,
}
use ocn_registry_v.Governance.Tasks.{vote, vote_from, vote_for, given_number, given_text, id_of}
use ocn_registry_v.Governance.Frame.{
  Sends, Sends-IsPreorder, send-Sends, PermitsMining, vote_from-Moves,
}

-- A vote For (1) or Abstain (2, or any other number but 0) on a proposal, or mining.
abbrev pub IsVoteNotAgainst : String → Request → Type 0
IsVoteNotAgainst id (propose targets values calldatas description) = ⊥
IsVoteNotAgainst id (queue targets values calldatas hash) = ⊥
IsVoteNotAgainst id (execute targets values calldatas hash) = ⊥
IsVoteNotAgainst id (cast_vote voted way reason) = (voted ≡ id) × (0 < way)
IsVoteNotAgainst id evm_mine = Unit
IsVoteNotAgainst id (mine amount interval) = Unit
IsVoteNotAgainst id (increase_time seconds) = Unit

mining : (id : String) → PermitsMining (IsVoteNotAgainst id)
mining id = record { one = tt; many = λ a i. tt; time = λ n. tt }

given_number-pos : (way : Option ℕ) → 0 < given_number way 1
given_number-pos none = omega arith
given_number-pos (some zero) = omega arith
given_number-pos (some (suc n)) = omega arith

module _ (C : Chain) (network : String) where
  -- Whatever is asked of it, the voting task sends votes on one proposal only, the one that it was
  -- given or else the last one in the file, and never a vote Against (0); all else that it sends is
  -- mining.
  pub vote-Sends :
      (id : Option String) (way : Option ℕ) (w : World)
      → Sends
          (IsVoteNotAgainst
            (given_text id (id_of (get_last_proposal network (load_proposals w.file)))))
          w
          (vote C network id way w).1
  unfolding vote
  vote-Sends id way w =
      let chosen : String =
        given_text id (id_of (get_last_proposal network (load_proposals w.file))) in
      (vote_from-Moves C network (Sends-IsPreorder _) (send-Sends C (IsVoteNotAgainst chosen))
          (mining chosen) (load_proposals w.file) id way
          (λ voted reason e. (e, given_number-pos way))).at
        w

  -- If the governor does not report the proposal that the voting task was given, or else the last
  -- one in the file, as active (1), then the task leaves the requests and the file as they were.
  pub vote_inactive :
      (id : Option String) (way : Option ℕ) (w : World)
      → C.state w.sent (given_text id (id_of (get_last_proposal network (load_proposals w.file))))
        ≢ ok 1
      → (vote C network id way w).1 ≡ w
  unfolding vote vote_from vote_for ◌>>=◌
  vote_inactive id way w h = ground arith
