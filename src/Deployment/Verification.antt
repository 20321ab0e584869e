-- ===== src/Deployment/Verification.antt =====
-- deploy/verifyAll.ts with helper/verify.ts: the contracts whose source is sent to the block explorer.
use native.Mathlib.Omega.{arith}
use ocn_registry_v.Base.{
  ◌≡◌, true, false, not, ◌||◌, List, [], ◌∷◌, ◌++◌, ◌==◌, numbers_eq, nat_eq, contains,
  if◌then◌else◌,
}
use ocn_registry_v.Text.{Text, codes}
use ocn_registry_v.Client.Failures.{is_full}
use ocn_registry_v.Client.Wrapper.{Outcome, done, failed, ◌>=>◌}
use ocn_registry_v.Deployment.Verifiers.{dev_chains}
use ocn_registry_v.Deployment.Hardhat.{Argument, text}
use ocn_registry_v.Deployment.Scripts.{timelock_args, governor_args}

-- An address with the arguments that the constructor is said to have had.
pub record Asked : Type 0 where
  pub address : Text
  pub constructor_arguments : List Argument

-- `ethers.getContract`, by what was asked of the explorer before. The explorer's errors are printed and
-- dropped by `verify`.
pub record Explorer : Type 0 where
  pub deployer : Text
  pub contract : List Asked → Text → Outcome Text

-- `process.env.SC` and `process.env.ETHERSCAN_API_KEY`, empty where they are not set
pub record VerifyEnvironment : Type 0 where
  pub contract_name : Text
  pub api_key : Text

abbrev pub Verifying : Type 0
Verifying = Outcome (Unit {0}) × List Asked

module _ (X : Explorer) where
  unfoldable pub verify : Text → List Argument → List Asked → Verifying
  verify address args h =
      (done tt, h ++ record { address = address; constructor_arguments = args } ∷ [])

  -- One of the five blocks: the contract, the contracts that its arguments need, and the arguments.
  abbrev pub looked_up : List Text → List Asked → Outcome (List Text)
  looked_up [] h = done []
  looked_up (name ∷ names) h =
      X.contract h name >=> λ address. looked_up names h >=> λ addresses. done (address ∷ addresses)

  abbrev pub found_with :
      Text → List Text → (List Text → List Argument) → List Asked → Outcome (Text × List Argument)
  found_with name others args h = X.contract h name >=> λ address.
      looked_up others h >=> λ addresses. done (address, args addresses)

  abbrev pub verify_with : Text → List Text → (List Text → List Argument) → List Asked → Verifying
  verify_with name others args h = elim (found_with name others args h) [
    | failed e ↦ (failed e, h)
    | done (address, arguments) ↦ verify address arguments h
  ]

  abbrev pub after : Verifying → (List Asked → Verifying) → Verifying
  after (done _, h) f = f h
  after (failed e, h) f = (failed e, h)

  abbrev pub targets : List Text → List Argument
  targets [] = []
  targets (address ∷ addresses) = text address ∷ targets addresses

  abbrev governor_arguments : List Text → List Argument
  governor_arguments (token ∷ timelock ∷ rest) = governor_args token timelock
  governor_arguments addresses = []

  abbrev pub wanted : Text → VerifyEnvironment → (List Asked → Verifying) → List Asked → Verifying
  wanted name e block h =
      if not (is_full e.contract_name) || e.contract_name == name then block h else (done tt, h)

  unfoldable pub verify_all : Text → VerifyEnvironment → List Asked → Verifying
  verify_all network e h =
      if contains dev_chains network || not (is_full e.api_key)
      then (done tt, h)
      else after
          (wanted (codes "OcnVoteToken") e (verify_with (codes "OcnVoteToken") [] (λ _. [])) h)
          λ h1.
            after
              (wanted (codes "Timelock") e
                (verify_with (codes "Timelock") [] (λ _. timelock_args X.deployer)) h1)
              λ h2.
                after
                  (wanted (codes "OcnGovernor") e
                    (verify_with (codes "OcnGovernor")
                      (codes "OcnVoteToken" ∷ codes "Timelock" ∷ []) governor_arguments)
                    h2)
                  λ h3.
                    after
                      (wanted (codes "OcnPaymentManager") e
                        (verify_with (codes "OcnPaymentManager") (codes "EuroStableCoin" ∷ [])
                          targets)
                        h3)
                      λ h4.
                        wanted (codes "OcnRegistry") e
                          (verify_with (codes "OcnRegistry") (codes "OcnPaymentManager" ∷ [])
                            targets)
                          h4

module _ (X : Explorer) {h : List Asked} where
  -- The block of a contract that takes one other, where both are found, asks the explorer with that other.
  verify_with-targets :
      {name other contract target : Text}
      → X.contract h name ≡ done contract
      → X.contract h other ≡ done target
      → verify_with X name (other ∷ []) (targets X) h ≡ verify X contract (text target ∷ []) h
  verify_with-targets found others = ground (arith, found, others)

-- The registry is deployed with the payment manager and the validator (deploy/09_deployOcnRegistry.ts). Asked
-- for by its name on a network that is none of the development chains, with the key of the explorer and
-- where both contracts are found, it is said to have been deployed with the payment manager alone.
pub registry_verified :
    (X : Explorer) (network : Text) (e : VerifyEnvironment) (h : List Asked)
    (registry manager : Text)
    → contains dev_chains network ≡ false
    → is_full e.api_key ≡ true
    → e.contract_name ≡ codes "OcnRegistry"
    → X.contract h (codes "OcnRegistry") ≡ done registry
    → X.contract h (codes "OcnPaymentManager") ≡ done manager
    → verify_all X network e h ≡ (
      done tt,
      h ++ record { address = registry; constructor_arguments = text manager ∷ [] } ∷ [],
    )
unfolding verify_all verify numbers_eq
registry_verified X network e h registry manager production key name found other =
    rw (production, key, name) (verify_with-targets X found other)
