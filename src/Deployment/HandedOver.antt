-- ===== src/Deployment/HandedOver.antt =====
-- The requests of a deployment of the registry on a network that is no development chain.
use mathlib.Core.List.{append-nil, append_assoc}
use ocn_registry_v.Base.{
  ◌≡◌, refl, sym, ap, ◌∙◌, ℕ, true, false, Option, none, some, List, [], ◌∷◌, ◌++◌, numbers_eq,
  nat_eq, map, contains, if◌then◌else◌,
}
use ocn_registry_v.Text.{Text, codes}
use ocn_registry_v.Client.Wrapper.{done}
use ocn_registry_v.Deployment.Verifiers.{dev_chains, allowed_from_env, allow_verifiers}
use ocn_registry_v.Deployment.Allowed.{allow_all_sent, not_development}
use ocn_registry_v.Deployment.Registry.{
  Request, registry_deployed, files_copied, verifier_set, oracle_set, validator_transferred,
  registry_transferred, RegistryChain, configured_networks, ◌then◌, request, verifiers_chain, allow,
  set_oracle, deploy, deploy_registry,
}

-- The request for an oracle, if there is one.
abbrev pub oracle_requests : ℕ → Option Text → List Request
oracle_requests role none = []
oracle_requests role (some oracle) = oracle_set role oracle ∷ []

-- Everything that a deployment sends.
abbrev pub plan : (Text → Text) → (Text → Option Text) → Text → List Request
plan target found raw =
    (registry_deployed (target (codes "OcnPaymentManager"))
        (target (codes "PartyRegistrationValidator"))
      ∷ files_copied
      ∷ [])
    ++ map verifier_set (allowed_from_env raw)
    ++ oracle_requests 0 (found (codes "CPOOracle"))
    ++ oracle_requests 1 (found (codes "EMSPOracle"))
    ++ (validator_transferred (target (codes "Timelock"))
        ∷ registry_transferred (target (codes "Timelock"))
        ∷ [])

module _ (C : RegistryChain) (target : Text → Text) (found : Text → Option Text)
    (contracts : (h : List Request) (name : Text) → C.contract h name ≡ done (target name))
    (optional : (h : List Request) (name : Text) → C.contract_or_null h name ≡ done (found name))
    (takes : (h : List Request) (r : Request)
      → (C.accept h r ≡ done tt) × (C.wait h r ≡ done tt)) where
  request_done : (r : Request) (h : List Request) → request C r h ≡ (done tt, h ++ r ∷ [])
  unfolding request
  request_done r h = rw (request, (takes h r).0, (takes (h ++ r ∷ []) r).1) refl

  deploy_done :
      (network manager validator : Text) (h : List Request)
      → contains configured_networks network ≡ true
      → deploy C network manager validator h
        ≡ (done tt, h ++ registry_deployed manager validator ∷ [])
  unfolding deploy
  deploy_done network manager validator h known =
      rw (deploy, known) (request_done (registry_deployed manager validator) h)

  allow_done :
      (network raw : Text) (h : List Request)
      → contains dev_chains network ≡ false
      → allow C network raw h ≡ (done tt, h ++ map verifier_set (allowed_from_env raw))
  unfolding allow allow_verifiers
  allow_done network raw h production = ap (λ r. (r.0, h ++ map verifier_set r.1)) (sent production)
    where
      sent :
          contains dev_chains network ≡ false
          → allow_verifiers (verifiers_chain C h) network raw [] ≡ (done tt, allowed_from_env raw)
      sent production' =
          rw (allow_verifiers, not_development (verifiers_chain C h) network raw [] production')
            (allow_all_sent (verifiers_chain C h) (λ vs v. takes' vs v) (allowed_from_env raw) [])
        where
          takes' :
              (vs : List Text) (v : Text)
              → (C.accept (h ++ map verifier_set vs) (verifier_set v) ≡ done tt)
                × (C.wait (h ++ map verifier_set vs) (verifier_set v) ≡ done tt)
          takes' vs v = takes (h ++ map verifier_set vs) (verifier_set v)

  set_oracle_done :
      (network : Text) (role : ℕ) (o : Option Text) (h : List Request)
      → contains dev_chains network ≡ false
      → set_oracle C network role o h ≡ (done tt, h ++ oracle_requests role o)
  unfolding set_oracle
  set_oracle_done network role none h production = ap (λ t. (done tt, t)) (sym (append-nil h))
  set_oracle_done network role (some oracle) h production =
      rw (set_oracle, production) (request_done (oracle_set role oracle) h)

  gathered :
      (h : List Request) (a b c d : Request) (vs ro re : List Request)
      → h ++ a ∷ [] ++ b ∷ [] ++ vs ++ ro ++ re ++ c ∷ [] ++ d ∷ []
        ≡ h ++ ((a ∷ b ∷ []) ++ vs ++ ro ++ re ++ (c ∷ d ∷ []))
  gathered h a b c d vs ro re = simp append_assoc refl

  -- From the choice of the verifiers on.
  handing_over :
      (network raw timelock : Text) (h : List Request)
      → contains dev_chains network ≡ false
      → (allow C network raw h then λ _ h9.
          (C.contract_or_null h9 (codes "EMSPOracle"), h9) then λ emsp h10.
          (C.contract_or_null h10 (codes "CPOOracle"), h10) then λ cpo h11.
          set_oracle C network 0 cpo h11 then λ _ h12. set_oracle C network 1 emsp h12 then λ _ h13.
          request C (validator_transferred timelock) h13 then λ _ h14.
          request C (registry_transferred timelock) h14)
        ≡ (
          done tt,
          h
              ++ map verifier_set (allowed_from_env raw)
              ++ oracle_requests 0 (found (codes "CPOOracle"))
              ++ oracle_requests 1 (found (codes "EMSPOracle"))
              ++ validator_transferred timelock ∷ []
              ++ registry_transferred timelock ∷ [],
        )
  handing_over network raw timelock h production =
      let h3 = h ++ map verifier_set (allowed_from_env raw) in
      let h4 = h3 ++ oracle_requests 0 (found (codes "CPOOracle")) in
      let h5 = h4 ++ oracle_requests 1 (found (codes "EMSPOracle")) in
      rw (allow_done network raw h production) (
        rw (optional h3 (codes "EMSPOracle")) (
          rw (optional h3 (codes "CPOOracle")) (
            rw (set_oracle_done network 0 (found (codes "CPOOracle")) h3 production) (
              rw (set_oracle_done network 1 (found (codes "EMSPOracle")) h4 production) (
                rw (request_done (validator_transferred timelock) h5) (
                  request_done (registry_transferred timelock)
                    (h5 ++ validator_transferred timelock ∷ [])))))))

  -- Suppose the network is configured and none of the development chains, the contracts are found, and the network
  -- takes and confirms all transactions. Then the deployment of the registry succeeds, and sends exactly
  -- this, in this order: the contract with the payment manager and the validator, the copy of the
  -- files, each verifier of ALLOWED_VERIFIERS, the oracle of the CPOs and that of the EMSPs, if they
  -- are there, and last the handing over of the validator and of the registry to the timelock.
  pub deploy_registry_sends :
      (network raw : Text) (h : List Request)
      → contains configured_networks network ≡ true
      → contains dev_chains network ≡ false
      → deploy_registry C network raw h ≡ (done tt, h ++ plan target found raw)
  unfolding deploy_registry
  deploy_registry_sends network raw h known production =
      let manager = target (codes "OcnPaymentManager") in
      let validator = target (codes "PartyRegistrationValidator") in
      let timelock = target (codes "Timelock") in
      let vs = map verifier_set (allowed_from_env raw) in
      let cpo = found (codes "CPOOracle") in
      let emsp = found (codes "EMSPOracle") in
      let h1 = h ++ registry_deployed manager validator ∷ [] in
      let h2 = h1 ++ files_copied ∷ [] in
      rw (contracts h (codes "OcnPaymentManager")) (
        rw (contracts h (codes "PartyRegistrationValidator")) (
          rw (deploy_done network manager validator h known) (
            rw (request_done files_copied h1) (
              rw (contracts h2 (codes "Timelock")) (
                rw (contracts h2 (codes "OcnRegistry")) (
                  rw (contracts h2 (codes "PartyRegistrationValidator")) (
                    rw (contracts h2 (codes "CertificateVerifier"))
                      (handing_over network raw timelock h2 production))))))))
      ∙ ap (λ t. (done tt, t))
          (gathered h (registry_deployed manager validator) files_copied
            (validator_transferred timelock) (registry_transferred timelock) vs
            (oracle_requests 0 cpo) (oracle_requests 1 emsp))
