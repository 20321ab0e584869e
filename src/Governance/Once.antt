-- ===== src/Governance/Once.antt =====
-- What the proposing tasks do to the file of proposals.
use ocn_registry_v.Base.{
  ◌≡◌, refl, String, Option, none, some, List, [], ◌∷◌, ◌++◌, ◌==◌, string_eq, if◌then◌else◌,
  is_some, arith, ℕ, Bool, true, false,
}
use ocn_registry_v.Base.Exec.{IsPreorder, Moves, moves_rules}
use ocn_registry_v.Base.Lists.{find, find-append}
use ocn_registry_v.Base.Dict.{lookup-insert}
use ocn_registry_v.Governance.Storage.{
  Proposal, Proposals, load_proposals, get_proposals, store_proposal,
  get_proposal_by_encoded_function,
}
use ocn_registry_v.Governance.Chain.{Request, Chain, World, send, write_file}
use ocn_registry_v.Governance.Tasks.{
  first, move_blocks, confirm_proposal, submit_proposal, propose_amount_from, propose_amount,
  propose_set_verifier_from, propose_set_verifier,
}
use ocn_registry_v.Governance.Frame.{
  AnyRequest, AnyRequest-PermitsMining, send-SameFile, move_blocks-Moves,
}

-- No two of the proposals encode the same call.
abbrev pub HasNoRepeat : List Proposal → Type 0
HasNoRepeat [] = Unit
HasNoRepeat (p ∷ ps) =
    (find (λ q. q.encoded_function == p.encoded_function) ps ≡ none) × HasNoRepeat ps

HasNoRepeat-append :
    (ps : List Proposal) (p : Proposal)
    → HasNoRepeat ps
    → find (λ q. q.encoded_function == p.encoded_function) ps ≡ none
    → HasNoRepeat (ps ++ p ∷ [])
unfolding find
HasNoRepeat-append [] p h f = (refl, tt)
HasNoRepeat-append (q ∷ ps) p (fresh, h) f = ground (
  arith,
  HasNoRepeat-append ps p h,
  find-append (λ r. r.encoded_function == q.encoded_function) ps (p ∷ []),
)

Bool-if : {A : Type 0} (P : A → Type 0) (b : Bool) {x y : A} → P x → P y → P (if b then x else y)
Bool-if P true p q = p
Bool-if P false p q = q

none_of : {A : Type 0} {o : Option A} → is_some o ≡ false → o ≡ none
none_of {o = none} h = refl
none_of {o = some a} h = absurd (cc h)

-- On every network.
abbrev pub IsOnce : Proposals → Type 0
IsOnce proposals = (network : String) → HasNoRepeat (get_proposals network proposals)

pub store_proposal-get_proposals :
    (network other id encoded description : String) (ps : Proposals)
    → get_proposals other (store_proposal network id encoded description ps) ≡ (
        if other == network
        then get_proposals network ps
          ++ (record { proposal_id = id; encoded_function = encoded; description = description }
              ∷ [])
        else get_proposals other ps)
unfolding store_proposal get_proposals
store_proposal-get_proposals network other id encoded description ps =
    rw lookup-insert (ground arith)

pub encoded-eq-find :
    (network encoded : String) (ps : Proposals)
    → get_proposal_by_encoded_function network encoded ps
      ≡ find (λ p. p.encoded_function == encoded) (get_proposals network ps)
unfolding get_proposals get_proposal_by_encoded_function find
encoded-eq-find network encoded ps = ground arith

store_proposal-IsOnce :
    (network id encoded description : String) (ps : Proposals)
    → IsOnce ps
    → is_some (get_proposal_by_encoded_function network encoded ps) ≡ false
    → IsOnce (store_proposal network id encoded description ps)
store_proposal-IsOnce network id encoded description ps h fresh other =
    rw store_proposal-get_proposals (
      Bool-if HasNoRepeat (other == network)
        (HasNoRepeat-append (get_proposals network ps) _ (h network)
          (none_of (rw encoded-eq-find at fresh)))
        (h other))

-- The file lists no call twice on a network, if it did not before.
abbrev pub KeepsOnce : World → World → Type 0
KeepsOnce v w = IsOnce (load_proposals v.file) → IsOnce (load_proposals w.file)

pub KeepsOnce-IsPreorder : IsPreorder KeepsOnce
KeepsOnce-IsPreorder = record { same = λ s h. h; chain = λ s t u p q h. q (p h) }

pub send-KeepsOnce : (C : Chain) (r : Request) → AnyRequest r → Moves KeepsOnce (send C r)
send-KeepsOnce C r h = record { at = λ w once. rw ((send-SameFile C r h).at w) once }

write_file-KeepsOnce : (ps : Proposals) → IsOnce ps → Moves KeepsOnce (write_file ps)
unfolding write_file load_proposals
write_file-KeepsOnce ps h = record { at = λ w _. h }

module _ (C : Chain) (network : String) where
  first-KeepsOnce : (ids : List String) → Moves KeepsOnce (first ids)
  first-KeepsOnce [] = search (moves_rules, KeepsOnce-IsPreorder)
  first-KeepsOnce (id ∷ ids) = search (moves_rules, KeepsOnce-IsPreorder)

  mining-KeepsOnce : (n : ℕ) → Moves KeepsOnce (move_blocks C network n)
  mining-KeepsOnce =
      move_blocks-Moves C network KeepsOnce-IsPreorder (send-KeepsOnce C) AnyRequest-PermitsMining

  submit_proposal-KeepsOnce :
      (storage : Proposals) (target encoded description : String)
      → IsOnce storage
      → Moves KeepsOnce (submit_proposal C network storage target encoded description)
  unfolding submit_proposal confirm_proposal
  submit_proposal-KeepsOnce storage target encoded description once =
      search
        (
          moves_rules, KeepsOnce-IsPreorder, send-KeepsOnce, mining-KeepsOnce, first-KeepsOnce,
          write_file-KeepsOnce, store_proposal-IsOnce, once,
        )
        depth 40 fits 4000

  amount_from-KeepsOnce :
      (storage : Proposals) (amount : Option ℕ) (descr : Option String)
      → IsOnce storage
      → Moves KeepsOnce (propose_amount_from C network storage amount descr)
  unfolding propose_amount_from
  amount_from-KeepsOnce storage amount descr once =
      search (moves_rules, KeepsOnce-IsPreorder, submit_proposal-KeepsOnce, once) depth 30 fits 3000

  verifier_from-KeepsOnce :
      (storage : Proposals) (verifier : String) (descr : Option String)
      → IsOnce storage
      → Moves KeepsOnce (propose_set_verifier_from C network storage verifier descr)
  unfolding propose_set_verifier_from
  verifier_from-KeepsOnce storage verifier descr once =
      search (moves_rules, KeepsOnce-IsPreorder, submit_proposal-KeepsOnce, once) depth 30 fits 3000

  pub propose_amount-KeepsOnce :
      (amount : Option ℕ) (descr : Option String)
      → Moves KeepsOnce (propose_amount C network amount descr)
  unfolding propose_amount
  propose_amount-KeepsOnce amount descr = record {
    at = λ w once. (amount_from-KeepsOnce (load_proposals w.file) amount descr once).at w once;
  }

  pub propose_set_verifier-KeepsOnce :
      (verifier : String) (descr : Option String)
      → Moves KeepsOnce (propose_set_verifier C network verifier descr)
  unfolding propose_set_verifier
  propose_set_verifier-KeepsOnce verifier descr = record {
    at = λ w once. (verifier_from-KeepsOnce (load_proposals w.file) verifier descr once).at w once;
  }
