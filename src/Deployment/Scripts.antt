-- ===== src/Deployment/Scripts.antt =====
-- The deployment scripts before that of the registry, deploy/01_deployOcnVoteToken.ts to
-- deploy/08b_deployPartyRegistrationValidator.ts, in the order in which hardhat-deploy runs them.
use ocn_registry_v.Base.{Bool, not, numbers_eq, List, [], ◌∷◌, ◌++◌, if◌then◌else◌}
use ocn_registry_v.Text.{Text, codes}
use ocn_registry_v.Client.Failures.{new_error, is_full}
use ocn_registry_v.Client.Types.{zero_address}
use ocn_registry_v.Client.Wrapper.{done, failed}
use ocn_registry_v.Deployment.Hardhat.{
  Hardhat, Argument, text, number, none_of_them, proxy_deployed, saved, called, files_copied,
  Script, ◌>>=◌, ◌>>◌, pure, ask, send, deploy_contract,
}

-- `process.env`, where a variable that is not set is empty: the scripts treat the two alike.
pub record PaymentEnvironment : Type 0 where
  pub stablecoin_address : Text
  pub stablecoin_deployment_name : Text
  pub default_operator : Text

-- `a || b` of texts
abbrev pub text_or : Text → Text → Text
text_or a b = if is_full a then a else b

-- [MIN_DELAY, [], [], deployer]
abbrev pub timelock_args : Text → List Argument
timelock_args deployer = number 3600 ∷ none_of_them ∷ none_of_them ∷ text deployer ∷ []

-- with QUORUM_PERCENTAGE, VOTING_PERIOD and VOTING_DELAY
abbrev pub governor_args : Text → Text → List Argument
governor_args token timelock = text token ∷ text timelock ∷ number 4 ∷ number 5 ∷ number 0 ∷ []

module _ (H : Hardhat) where
  abbrev pub delegate : Text → Text → Script (Unit {0})
  delegate token account = do
    send H (called token (codes "delegate") (text account ∷ []))
    ask (λ h. H.query h token (codes "numCheckpoints"))
    pure tt

  unfoldable pub deploy_vote_token : Text → Script (Unit {0})
  deploy_vote_token network = do
    token ← deploy_contract H network (codes "OcnVoteToken") []
    delegate token H.deployer
    send H files_copied

  unfoldable pub deploy_timelock : Text → Script (Unit {0})
  deploy_timelock network = do
    deploy_contract H network (codes "Timelock") (timelock_args H.deployer)
    send H files_copied

  unfoldable pub deploy_governor : Text → Script (Unit {0})
  deploy_governor network = do
    token ← ask (λ h. H.get h (codes "OcnVoteToken"))
    timelock ← ask (λ h. H.get h (codes "Timelock"))
    deploy_contract H network (codes "OcnGovernor") (governor_args token timelock)
    send H files_copied

  -- deploy/04_setupGovernor.ts
  unfoldable pub setup_governor : Script (Unit {0})
  setup_governor = do
    timelock ← ask (λ h. H.contract h (codes "Timelock"))
    governor ← ask (λ h. H.contract h (codes "OcnGovernor"))
    proposer ← ask (λ h. H.query h timelock (codes "PROPOSER_ROLE"))
    executor ← ask (λ h. H.query h timelock (codes "EXECUTOR_ROLE"))
    admin ← ask (λ h. H.query h timelock (codes "DEFAULT_ADMIN_ROLE"))
    send H (called timelock (codes "grantRole") (text proposer ∷ text governor ∷ []))
    send H (called timelock (codes "grantRole") (text executor ∷ text zero_address ∷ []))
    send H (called timelock (codes "revokeRole") (text admin ∷ text H.deployer ∷ []))

  -- The scripts that deploy one contract with fixed arguments.
  unfoldable pub deploy_plain : Text → Text → List Argument → Script (Unit {0})
  deploy_plain network name args = do deploy_contract H network name args; send H files_copied

  unfoldable pub deploy_stable_coin : Text → Script (Unit {0})
  deploy_stable_coin network = deploy_plain network (codes "EuroStableCoin") []

  -- `parseUnits` is a parameter.
  unfoldable pub deploy_mock_coin : (Text → Argument) → Text → Script (Unit {0})
  deploy_mock_coin parse_units network = deploy_plain network (codes "MockERC20") (
      text (codes "MockEuroStableCoin")
      ∷ text (codes "mEURSC")
      ∷ parse_units (codes "1000000")
      ∷ parse_units (codes "1000")
      ∷ [])

  -- The stablecoin of deploy/06_deployOcnPaymentManager.ts.
  unfoldable pub stablecoin_for : (Text → Bool) → PaymentEnvironment → Script Text
  stablecoin_for is_address e =
      if not (is_full e.stablecoin_address)
      then ask (λ h. H.contract h (text_or e.stablecoin_deployment_name (codes "EuroStableCoin")))
      else if is_address e.stablecoin_address
      then pure e.stablecoin_address
      else ask (λ _. failed (
          new_error (
            codes "Invalid STABLECOIN_ADDRESS: \""
            ++ e.stablecoin_address
            ++ codes "\". Expected a valid 0x... Ethereum address.")))

  unfoldable pub deploy_payment_manager : (Text → Bool) → PaymentEnvironment → Script (Unit {0})
  deploy_payment_manager is_address e = do
    stablecoin ← stablecoin_for is_address e
    send H (
        proxy_deployed (codes "OcnPaymentManager")
          (text stablecoin ∷ number 100 ∷ text (text_or e.default_operator zero_address) ∷ []))
    manager ← ask (λ h. done (H.address_of h (codes "OcnPaymentManager")))
    send H (saved (codes "OcnPaymentManager") manager)
    send H files_copied
    timelock ← ask (λ h. H.contract h (codes "Timelock"))
    send H (called manager (codes "transferOwnership") (text timelock ∷ []))

  -- Its last lookup is of a contract that nothing uses.
  unfoldable pub deploy_certificate_verifier : Text → Script (Unit {0})
  deploy_certificate_verifier network = do
    deploy_contract H network (codes "CertificateVerifier") []
    ask (λ h. H.contract h (codes "CertificateVerifier"))
    send H files_copied

  unfoldable pub deploy_oracles : Text → Script (Unit {0})
  deploy_oracles network = do
    deploy_contract H network (codes "EMSPOracle") []
    deploy_contract H network (codes "CPOOracle") []
    send H files_copied

  unfoldable pub deploy_validator : Text → Script (Unit {0})
  deploy_validator network = do
    verifier ← ask (λ h. H.contract h (codes "CertificateVerifier"))
    deploy_contract H network (codes "PartyRegistrationValidator") (text verifier ∷ [])
    send H files_copied

  unfoldable pub deploy_governance : Text → Script (Unit {0})
  deploy_governance network = do
    deploy_vote_token network
    deploy_timelock network
    deploy_governor network
    setup_governor

  unfoldable pub deploy_contracts :
      (Text → Argument) → (Text → Bool) → PaymentEnvironment → Text → Script (Unit {0})
  deploy_contracts parse_units is_address e network = do
    deploy_governance network
    deploy_stable_coin network
    deploy_mock_coin parse_units network
    deploy_payment_manager is_address e
    deploy_certificate_verifier network
    deploy_oracles network
    deploy_validator network
