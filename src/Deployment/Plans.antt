-- ===== src/Deployment/Plans.antt =====
-- What the deployment scripts before that of the registry have to send, in order.
use ocn_registry_v.Base.{◌≡◌, true, contains, numbers_eq, List, [], ◌∷◌, ◌++◌}
use ocn_registry_v.Text.{Text, codes}
use ocn_registry_v.Client.Types.{zero_address}
use ocn_registry_v.Client.Wrapper.{done}
use ocn_registry_v.Deployment.Hardhat.{
  Hardhat, Argument, text, number, Sent, deployed, proxy_deployed, saved, called, files_copied,
}
use ocn_registry_v.Deployment.Scripts.{PaymentEnvironment, text_or, timelock_args, governor_args}

-- The roles of the timelock are constants of its contract.
abbrev pub role_names : List Text
role_names = codes "PROPOSER_ROLE" ∷ codes "EXECUTOR_ROLE" ∷ codes "DEFAULT_ADMIN_ROLE" ∷ []

abbrev pub plain_plan : Text → List Argument → List Sent
plain_plan name args = deployed name args ∷ files_copied ∷ []

-- Contracts are found where they were deployed, and a role of the timelock is always the same.
pub record IsStable (H : Hardhat) (address role : Text → Text) : Type 0 where
  pub placed : (h : List Sent) (name : Text) → H.address_of h name ≡ address name
  pub found : (h : List Sent) (name a : Text) → H.contract h name ≡ done a → a ≡ address name
  pub got : (h : List Sent) (name a : Text) → H.get h name ≡ done a → a ≡ address name
  pub roles :
      (h : List Sent) (timelock name a : Text)
      → contains role_names name ≡ true
      → H.query h timelock name ≡ done a
      → a ≡ role name

-- The addresses of the contracts and the roles of the timelock, by their names.
module _ (H : Hardhat) (address role : Text → Text) where
  -- The governor becomes a proposer, anybody may execute, and last the deployer gives up its own role.
  abbrev pub setup_plan : List Sent
  setup_plan =
      let timelock = address (codes "Timelock") in
      called timelock (codes "grantRole")
        (text (role (codes "PROPOSER_ROLE")) ∷ text (address (codes "OcnGovernor")) ∷ [])
      ∷ called timelock (codes "grantRole")
          (text (role (codes "EXECUTOR_ROLE")) ∷ text zero_address ∷ [])
      ∷ called timelock (codes "revokeRole")
          (text (role (codes "DEFAULT_ADMIN_ROLE")) ∷ text H.deployer ∷ [])
      ∷ []

  abbrev pub vote_token_plan : List Sent
  vote_token_plan =
      deployed (codes "OcnVoteToken") []
      ∷ called (address (codes "OcnVoteToken")) (codes "delegate") (text H.deployer ∷ [])
      ∷ files_copied
      ∷ []

  abbrev pub governor_plan : List Sent
  governor_plan =
      plain_plan (codes "OcnGovernor")
        (governor_args (address (codes "OcnVoteToken")) (address (codes "Timelock")))

  abbrev pub governance_plan : List Sent
  governance_plan =
      vote_token_plan
      ++ plain_plan (codes "Timelock") (timelock_args H.deployer)
      ++ governor_plan
      ++ setup_plan

  -- The stablecoin that the payment manager is deployed with.
  abbrev pub coin_for : PaymentEnvironment → Text
  coin_for e =
      text_or e.stablecoin_address
        (address (text_or e.stablecoin_deployment_name (codes "EuroStableCoin")))

  abbrev pub payment_plan : PaymentEnvironment → List Sent
  payment_plan e =
      proxy_deployed (codes "OcnPaymentManager")
        (text (coin_for e) ∷ number 100 ∷ text (text_or e.default_operator zero_address) ∷ [])
      ∷ saved (codes "OcnPaymentManager") (address (codes "OcnPaymentManager"))
      ∷ files_copied
      ∷ called (address (codes "OcnPaymentManager")) (codes "transferOwnership")
          (text (address (codes "Timelock")) ∷ [])
      ∷ []

  abbrev pub oracles_plan : List Sent
  oracles_plan =
      deployed (codes "EMSPOracle") [] ∷ deployed (codes "CPOOracle") [] ∷ files_copied ∷ []

  abbrev pub contracts_plan : (Text → Argument) → PaymentEnvironment → List Sent
  contracts_plan parse_units e =
      governance_plan
      ++ plain_plan (codes "EuroStableCoin") []
      ++ plain_plan (codes "MockERC20") (
          text (codes "MockEuroStableCoin")
          ∷ text (codes "mEURSC")
          ∷ parse_units (codes "1000000")
          ∷ parse_units (codes "1000")
          ∷ [])
      ++ payment_plan e
      ++ plain_plan (codes "CertificateVerifier") []
      ++ oracles_plan
      ++ plain_plan (codes "PartyRegistrationValidator")
          (text (address (codes "CertificateVerifier")) ∷ [])
