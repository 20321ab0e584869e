-- ===== src/Governance/Mining.antt =====
-- How far the tasks move a development chain on.
use ocn_registry_v.Base.{
  ℕ, zero, suc, ◌≡◌, refl, ◌∙◌, inl, inr, ◌||◌, String, List, [], ◌∷◌, ◌++◌, ◌==◌, string_eq,
  if◌then◌else◌, Bool-cases,
}
use mathlib.Core.List.{append-nil, append_assoc}
use ocn_registry_v.Base.Exec.{ok, ◌>>=◌}
use ocn_registry_v.Base.Lists.{replicate}
use ocn_registry_v.Governance.Chain.{Request, evm_mine, Chain, World, send}
use ocn_registry_v.Governance.Tasks.{mine_loop, fast_forward, fast_forward_here}

module _ (C : Chain) (network : String)
    (accepted : (s : List Request) → C.accepts s evm_mine ≡ ok tt) (height : List Request → ℕ)
    (numbered : (s : List Request) → C.block_number s ≡ ok (height s)) where
  mine_loop_all :
      (n : ℕ) (w : World)
      → mine_loop C network n w ≡ (ok tt, record w { sent = w.sent ++ replicate n evm_mine })
  unfolding mine_loop ◌>>=◌ send
  mine_loop_all zero w = rw append-nil
  mine_loop_all (suc n) w =
      rw accepted (mine_loop_all n (record w { sent = w.sent ++ evm_mine ∷ [] }) ∙ rw append_assoc)

  mine_here :
      (blocks : ℕ) (w : World)
      → fast_forward_here C network blocks w
        ≡ (ok tt, record w { sent = w.sent ++ replicate blocks evm_mine })
  unfolding fast_forward_here ◌>>=◌
  mine_here blocks w = rw numbered (rw (mine_loop_all blocks w) (rw numbered refl))

  -- `ff` on localhost or hardhat mines exactly as many blocks as it is asked to; on any other
  -- network it sends nothing. The node takes every `evm_mine` and answers with its block number.
  pub fast_forward_exact :
      (blocks : ℕ) (w : World)
      → fast_forward C network blocks w ≡ (
          if network == "localhost" || network == "hardhat"
          then (ok tt, record w { sent = w.sent ++ replicate blocks evm_mine })
          else (ok tt, w))
  unfolding fast_forward
  fast_forward_exact blocks w = elim (Bool-cases (network == "localhost" || network == "hardhat")) [
    | inl here ↦ rw here (mine_here blocks w)
    | inr elsewhere ↦ rw elsewhere
  ]
