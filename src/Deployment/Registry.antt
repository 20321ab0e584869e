-- ===== src/Deployment/Registry.antt =====
-- deploy/09_deployOcnRegistry.ts: the deployment of the registry contract, from the contracts that it
-- needs to the handing over to the timelock.
use ocn_registry_v.Base.{
  ℕ, Option, none, some, List, [], ◌∷◌, ◌++◌, numbers_eq, map, contains, if◌then◌else◌,
}
use ocn_registry_v.Text.{Text, codes}
use ocn_registry_v.Client.Failures.{new_error}
use ocn_registry_v.Client.Wrapper.{Outcome, done, failed}
use ocn_registry_v.Deployment.Verifiers.{DeployChain, dev_chains, allow_verifiers}

pub data Request : Type 0 where
  -- with the payment manager and the validator
  registry_deployed : Text → Text → Request
  -- the files of the deployments, to the folder of the client library
  files_copied : Request
  verifier_set : Text → Request
  oracle_set : ℕ → Text → Request
  -- to the timelock
  validator_transferred registry_transferred : Text → Request

-- The network, hardhat-deploy and the files. What they answer depends on the requests before, the last
-- one last.
pub record RegistryChain : Type 0 where
  -- `ethers.getContract` and `ethers.getContractOrNull`
  pub contract : List Request → Text → Outcome Text
  pub contract_or_null : List Request → Text → Outcome (Option Text)
  pub cpo_verifier : List Request → Outcome Text
  pub emp_verifier : List Request → Outcome Text
  pub accept : List Request → Request → Outcome (Unit {0})
  pub wait : List Request → Request → Outcome (Unit {0})

-- The keys of `networkExtraConfig`: for any other network, reading `blockConfirmations` throws.
abbrev pub configured_networks : List Text
configured_networks =
    codes "localhost"
    ∷ codes "hardhat"
    ∷ codes "ganache"
    ∷ codes "amoy"
    ∷ codes "volta"
    ∷ codes "minikube"
    ∷ codes "chiado"
    ∷ codes "gnosis"
    ∷ []

infixl 5 ◌then◌
abbrev pub ◌then◌ :
    {A B : Type 0}
    → Outcome A × List Request
    → (A → List Request → Outcome B × List Request)
    → Outcome B × List Request
(done a, h) then f = f a h
(failed e, h) then f = (failed e, h)

module _ (C : RegistryChain) where
  unfoldable pub request : Request → List Request → Outcome (Unit {0}) × List Request
  request r h = elim (C.accept h r) [
    | failed e ↦ (failed e, h)
    | done _ ↦ (C.wait (h ++ r ∷ []) r, h ++ r ∷ [])
  ]

  -- The calls of `setVerifier` after the given requests.
  abbrev pub verifiers_chain : List Request → DeployChain
  verifiers_chain before = record {
    cpo_verifier = λ vs. C.cpo_verifier (before ++ map verifier_set vs);
    emp_verifier = λ vs. C.emp_verifier (before ++ map verifier_set vs);
    accept = λ vs v. C.accept (before ++ map verifier_set vs) (verifier_set v);
    wait = λ vs v. C.wait (before ++ map verifier_set vs) (verifier_set v);
  }

  unfoldable pub allow : Text → Text → List Request → Outcome (Unit {0}) × List Request
  allow network raw h =
      let r = allow_verifiers (verifiers_chain h) network raw [] in (r.0, h ++ map verifier_set r.1)

  unfoldable pub set_oracle :
      Text → ℕ → Option Text → List Request → Outcome (Unit {0}) × List Request
  set_oracle network role none h = (done tt, h)
  set_oracle network role (some oracle) h =
      if contains dev_chains network then (done tt, h) else request (oracle_set role oracle) h

  unfoldable pub deploy : Text → Text → Text → List Request → Outcome (Unit {0}) × List Request
  deploy network manager validator h =
      if contains configured_networks network
      then request (registry_deployed manager validator) h
      else (
        failed (
            new_error (codes "Cannot read properties of undefined (reading 'blockConfirmations')")),
        h,
      )

  unfoldable pub deploy_registry : Text → Text → List Request → Outcome (Unit {0}) × List Request
  deploy_registry network raw h = (C.contract h (codes "OcnPaymentManager"), h) then λ manager h1.
      (C.contract h1 (codes "PartyRegistrationValidator"), h1) then λ validator h2.
      deploy network manager validator h2 then λ _ h3. request files_copied h3 then λ _ h4.
      (C.contract h4 (codes "Timelock"), h4) then λ timelock h5.
      (C.contract h5 (codes "OcnRegistry"), h5) then λ registry h6.
      (C.contract h6 (codes "PartyRegistrationValidator"), h6) then λ validator' h7.
      (C.contract h7 (codes "CertificateVerifier"), h7) then λ verifier h8.
      allow network raw h8 then λ _ h9.
      (C.contract_or_null h9 (codes "EMSPOracle"), h9) then λ emsp h10.
      (C.contract_or_null h10 (codes "CPOOracle"), h10) then λ cpo h11.
      set_oracle network 0 cpo h11 then λ _ h12. set_oracle network 1 emsp h12 then λ _ h13.
      request (validator_transferred timelock) h13 then λ _ h14.
      request (registry_transferred timelock) h14
