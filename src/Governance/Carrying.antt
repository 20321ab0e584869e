-- ===== src/Governance/Carrying.antt =====
-- Queueing and executing what was proposed.
use ocn_registry_v.Base.{◌≡◌, ap, String, Option, none, some, [], ◌∷◌, string_eq, ℕ, inl, inr}
use ocn_registry_v.Base.Exec.{ok, ◌>>=◌}
use ocn_registry_v.Governance.Storage.{load_proposals}
use ocn_registry_v.Governance.Chain.{Request, number, propose, queue, execute, Chain, World}
use ocn_registry_v.Governance.Tasks.{
  propose_amount_from, propose_amount, given_number, given_text, new_yearly_amount,
  proposal_description, queue_proposal, execute_proposal,
}
use ocn_registry_v.Governance.Submitting.{
  Submits, IsLast, Result-cases, err_ok, submit-Submits, last_carried_out,
}

module _ (C : Chain) (network : String) where
  -- The amount's call as it is encoded, and the description as it is chosen.
  amount-Submits :
      (amount : Option ℕ) (descr : Option String) (id encoded manager : String) (v w : World)
      → C.encode "OcnPaymentManager" "setFundingYearlyAmount"
          (number (given_number amount new_yearly_amount) ∷ [])
        ≡ ok encoded
      → C.contract v.sent "OcnPaymentManager" ≡ ok manager
      → propose_amount C network amount descr v ≡ (ok (some id), w)
      → Submits
          (propose (manager ∷ []) (0 ∷ []) (encoded ∷ []) (given_text descr proposal_description))
          v
          w
        × IsLast network encoded (given_text descr proposal_description) (some id) w
  unfolding propose_amount propose_amount_from ◌>>=◌
  amount-Submits amount descr id encoded manager v w he hm h =
      elim (Result-cases (C.contract v.sent "OcnGovernor")) [
        | inl (g, hg) ↦
            submit-Submits C network (load_proposals v.file) manager encoded _ id v w
              (rw he at (rw hm at (rw hg at h)))
        | inr (message, hg) ↦ absurd (err_ok (ap (λ x. x.0) (rw hg at h)))
      ]

-- What the governor takes to carry a proposal out, by the request that proposed it.
abbrev pub queue_of : Chain → Request → Request
queue_of C (propose targets values calldatas description) =
    queue targets values calldatas (C.hash description)
queue_of C r = r

abbrev pub execute_of : Chain → Request → Request
execute_of C (propose targets values calldatas description) =
    execute targets values calldatas (C.hash description)
execute_of C r = r

-- Once an amount has been proposed, `queue` and `execute` without an identifier submit the very
-- operation that was proposed: the targets, values and calldatas of the proposing request, with the
-- hash of its description. The payment manager's address stays the same, and the governor is there
-- and takes the two requests.
pub carry_out_proposed :
    (C : Chain) (network : String) (amount : Option ℕ) (descr : Option String)
    (id encoded manager governor : String) (v w : World)
    → propose_amount C network amount descr v ≡ (ok (some id), w)
    → C.encode "OcnPaymentManager" "setFundingYearlyAmount"
        (number (given_number amount new_yearly_amount) ∷ [])
      ≡ ok encoded
    → C.contract v.sent "OcnPaymentManager" ≡ ok manager
    → C.contract w.sent "OcnPaymentManager" ≡ ok manager
    → C.contract w.sent "OcnGovernor" ≡ ok governor
    → C.accepts w.sent (
        queue
          (manager ∷ [])
          (0 ∷ [])
          (encoded ∷ [])
          (C.hash (given_text descr proposal_description)))
      ≡ ok tt
    → C.accepts w.sent (
        execute
          (manager ∷ [])
          (0 ∷ [])
          (encoded ∷ [])
          (C.hash (given_text descr proposal_description)))
      ≡ ok tt
    → (r : Request) × Submits r v w
      × Submits (queue_of C r) w (queue_proposal C network none w).1
      × Submits (execute_of C r) w (execute_proposal C network none w).1
unfolding queue_proposal execute_proposal
carry_out_proposed C network amount descr id encoded manager governor v w h he hv hm hg hq hx =
    let (submitted, stored) =
      amount-Submits C network amount descr id encoded manager v w he hv h in
    (
      propose (manager ∷ []) (0 ∷ []) (encoded ∷ []) (given_text descr proposal_description),
      submitted,
      last_carried_out C network queue encoded _ id manager governor w stored hm hg hq,
      last_carried_out C network execute encoded _ id manager governor w stored hm hg hx,
    )
