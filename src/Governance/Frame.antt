-- ===== src/Governance/Frame.antt =====
-- What a task does to the world, from what its requests do: for a preorder on worlds that holds
-- across each permitted request, the rules for the tasks that send nothing else.
use mathlib.Core.List.{append-nil, append_assoc}
use ocn_registry_v.Base.{
  ℕ, zero, suc, ◌≡◌, refl, sym, ◌∙◌, String, Option, none, some, List, [], ◌∷◌, ◌++◌, arith,
}
use ocn_registry_v.Base.Exec.{Result, ok, err, IsPreorder, Moves, moves_rules, Moves-bind}
use ocn_registry_v.Base.Lists.{All, All-append}
use ocn_registry_v.Governance.Storage.{Proposal, Proposals, get_last_proposal}
use ocn_registry_v.Governance.Chain.{
  Request, Chain, World, deliver, send, evm_mine, mine, increase_time, cast_vote,
}
use ocn_registry_v.Governance.Tasks.{
  move_blocks, move_time, mine_loop, vote_for, vote_from, cast, first_log, finish_carrying,
  carry_out, fast_forward, fast_forward_here, given_text, given_number, id_of,
}

-- The requests that only move the chain on.
pub record PermitsMining (P : Request → Type 0) : Type 0 where
  pub one : P evm_mine
  pub many : (amount interval : ℕ) → P (mine amount interval)
  pub time : (seconds : ℕ) → P (increase_time seconds)

module _ (C : Chain) (network : String) {R : World → World → Type 0} {P : Request → Type 0}
    (pre : IsPreorder R) (step : (r : Request) → P r → Moves R (send C r))
    (mining : PermitsMining P) where
  pub mine_loop-Moves : (n : ℕ) → Moves R (mine_loop C network n)
  unfolding mine_loop
  mine_loop-Moves zero = search (moves_rules, pre)
  mine_loop-Moves (suc n) = Moves-bind pre _ _ (step evm_mine mining.one) (λ _. mine_loop-Moves n)

  pub move_blocks-Moves : (n : ℕ) → Moves R (move_blocks C network n)
  unfolding move_blocks
  move_blocks-Moves n = search (moves_rules, pre, step, mine_loop-Moves, mining.many)

  pub move_time-Moves : (n : ℕ) → Moves R (move_time C network n)
  unfolding move_time
  move_time-Moves n = step (increase_time n) (mining.time n)

  first_log-Moves : (ids : List String) → Moves R (first_log ids)
  first_log-Moves [] = search (moves_rules, pre)
  first_log-Moves (id ∷ ids) = search (moves_rules, pre)

  pub cast-Moves :
      (id : String) (way : ℕ) (reason : String)
      → P (cast_vote id way reason)
      → Moves R (cast C network id way reason)
  unfolding cast
  cast-Moves id way reason h =
      search (moves_rules, pre, step, h, move_blocks-Moves, first_log-Moves) depth 30 fits 3000

  pub vote_for-Moves :
      (id : String) (way : ℕ) (reason : String)
      → P (cast_vote id way reason)
      → Moves R (vote_for C network id way reason)
  unfolding vote_for
  vote_for-Moves id way reason h = search (moves_rules, pre, cast-Moves, h) depth 30 fits 3000

  pub vote_from-Moves :
      (storage : Proposals) (id : Option String) (way : Option ℕ)
      → ((voted : String) (reason : String)
          → voted ≡ given_text id (id_of (get_last_proposal network storage))
          → P (cast_vote voted (given_number way 1) reason))
      → Moves R (vote_from C network storage id way)
  unfolding vote_from
  vote_from-Moves storage id way h =
      let chosen = given_text id (id_of (get_last_proposal network storage)) in
      let permitted = h chosen "OCN Node costs increased" refl in
      search (moves_rules, pre, vote_for-Moves, permitted)

  pub fast_forward-Moves : (blocks : ℕ) → Moves R (fast_forward C network blocks)
  unfolding fast_forward fast_forward_here
  fast_forward-Moves blocks = search (moves_rules, pre, mine_loop-Moves)

  pub finish_carrying-Moves : (filled : Request) → Moves R (finish_carrying C network filled)
  unfolding finish_carrying
  finish_carrying-Moves filled =
      search (moves_rules, pre, move_blocks-Moves, move_time-Moves) depth 30 fits 3000

  pub carry_out-Moves :
      (request : List String → List ℕ → List String → String → Request) (p : Option Proposal)
      → ((ts : List String) (vs : List ℕ) (cs : List String) (h : String) → P (request ts vs cs h))
      → Moves R (carry_out C network request p)
  unfolding carry_out
  carry_out-Moves request none h = search (moves_rules, pre)
  carry_out-Moves request (some p) h =
      search (moves_rules, pre, step, h, finish_carrying-Moves) depth 30 fits 3000

-- Nothing is written to the file.
abbrev pub SameFile : World → World → Type 0
SameFile v w = w.file ≡ v.file

pub SameFile-IsPreorder : IsPreorder SameFile
SameFile-IsPreorder = record { same = λ s. refl; chain = λ s t u p q. q ∙ p }

abbrev pub AnyRequest : Request → Type 0
AnyRequest r = Unit

pub AnyRequest-PermitsMining : PermitsMining AnyRequest
AnyRequest-PermitsMining = record { one = tt; many = λ a i. tt; time = λ n. tt }

pub send-SameFile : (C : Chain) (r : Request) → AnyRequest r → Moves SameFile (send C r)
unfolding send
send-SameFile C r h = record { at = λ w. ground arith }

-- Requests are only added, and all that are added are permitted.
abbrev pub Sends : (Request → Type 0) → World → World → Type 0
Sends P v w = (added : List Request) × (w.sent ≡ v.sent ++ added) × All P added

pub Sends-IsPreorder : (P : Request → Type 0) → IsPreorder (Sends P)
Sends-IsPreorder P = record {
  same = λ s. ([], sym (append-nil _), tt);
  chain = λ s t u (a, p, h) (b, q, k). (a ++ b, q ∙ rw (p, append_assoc), All-append P a b h k);
}

pub send-Sends : (C : Chain) (P : Request → Type 0) (r : Request) → P r → Moves (Sends P) (send C r)
unfolding send
send-Sends C P r h = record { at = λ w. go w (C.accepts w.sent r) }
  where
    go : (w : World) (a : Result (Unit {0})) → Sends P w (deliver C r w a).1
    go w (ok _) = (r ∷ [], refl, (h, tt))
    go w (err message) = ([], sym (append-nil _), tt)
