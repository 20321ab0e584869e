-- ===== src/Deployment/Planned.antt =====
-- What the deployment scripts before that of the registry send.
use mathlib.Core.Path.{subst}
use ocn_registry_v.Base.{
  ◌≡◌, refl, sym, ◌∙◌, Bool, true, Bool-cases, inl, inr, List, [], ◌∷◌, ◌++◌, contains, numbers_eq,
}
use ocn_registry_v.Text.{Text, codes}
use ocn_registry_v.Client.Failures.{is_full}
use ocn_registry_v.Client.Wrapper.{done, is_done}
use ocn_registry_v.Deployment.Hardhat.{
  Hardhat, Argument, text, Sent, deployed, called, files_copied, Script, ◌>>=◌, ◌>>◌, ask, send,
  deploy_contract,
}
use ocn_registry_v.Deployment.Scripts.{
  PaymentEnvironment, timelock_args, deploy_vote_token, deploy_timelock, deploy_governor,
  setup_governor, deploy_plain, deploy_stable_coin, deploy_mock_coin, stablecoin_for,
  deploy_payment_manager, deploy_certificate_verifier, deploy_oracles, deploy_validator,
  deploy_governance, deploy_contracts,
}
use ocn_registry_v.Deployment.Plans.{
  role_names, IsStable, setup_plan, vote_token_plan, plain_plan, governor_plan, governance_plan,
  coin_for, payment_plan, oracles_plan, contracts_plan,
}
use ocn_registry_v.Deployment.Ordered.{
  Progress, Follows, Follows-bind, Follows-ask, Follows-send, Follows-deploy_contract, Follows-pure,
  Anything, returned_eq,
}

module _ (H : Hardhat) (address role : Text → Text) (stable : IsStable H address role) where
  open stable use {placed, found, got, roles}

  -- A step whose result is known, and the rest with the known value.
  known :
      {A : Type 0} {P Q : List Sent} (m : Script Text) (f : Text → Script A) (v : Text)
      → Follows (λ a. a ≡ v) P m
      → Follows Anything Q (f v)
      → Follows Anything (P ++ Q) (m >>= f)
  known {A} {P} {Q} m f v p q =
      Follows-bind m f p (λ a e. subst (λ b. Follows Anything Q (f b)) (sym e) q)

  next :
      {A B : Type 0} {P Q : List Sent} (m : Script A) (n : Script B)
      → Follows Anything P m
      → Follows Anything Q n
      → Follows Anything (P ++ Q) (m >> n)
  next m n p q = Follows-bind m _ p (λ _ _. q)

  sends :
      {A : Type 0} {Q : List Sent} (r : Sent) (n : Script A)
      → Follows Anything Q n
      → Follows Anything (r ∷ Q) (send H r >> n)
  sends r n q = next (send H r) n (Follows-send H r) q

  deploys :
      {A : Type 0} {Q : List Sent} (network name : Text) (args : List Argument)
      (f : Text → Script A)
      → Follows Anything Q (f (address name))
      → Follows Anything (deployed name args ∷ Q) (deploy_contract H network name args >>= f)
  deploys network name args f q =
      known (deploy_contract H network name args) f (address name)
        (Follows-deploy_contract H address placed network name args) q

  finds :
      {A : Type 0} {Q : List Sent} (name : Text) (f : Text → Script A)
      → Follows Anything Q (f (address name))
      → Follows Anything Q (ask (λ h. H.contract h name) >>= f)
  finds name f q =
      known (ask (λ h. H.contract h name)) f (address name)
        (Follows-ask _ (λ h a e. found h name a e)) q

  gets :
      {A : Type 0} {Q : List Sent} (name : Text) (f : Text → Script A)
      → Follows Anything Q (f (address name))
      → Follows Anything Q (ask (λ h. H.get h name) >>= f)
  gets name f q =
      known (ask (λ h. H.get h name)) f (address name) (Follows-ask _ (λ h a e. got h name a e)) q

  reads :
      {A : Type 0} {Q : List Sent} (timelock name : Text) (f : Text → Script A)
      → contains role_names name ≡ true
      → Follows Anything Q (f (role name))
      → Follows Anything Q (ask (λ h. H.query h timelock name) >>= f)
  reads timelock name f one q =
      known (ask (λ h. H.query h timelock name)) f (role name)
        (Follows-ask _ (λ h a e. roles h timelock name a one e)) q

  copied : Follows Anything (files_copied ∷ []) (send H files_copied)
  copied = Follows-send H files_copied

  setup_governor-Follows : Follows Anything (setup_plan H address role) (setup_governor H)
  unfolding setup_governor numbers_eq
  setup_governor-Follows = finds (codes "Timelock") _ (
      finds (codes "OcnGovernor") _ (
        reads (address (codes "Timelock")) (codes "PROPOSER_ROLE") _ refl (
          reads (address (codes "Timelock")) (codes "EXECUTOR_ROLE") _ refl (
            reads (address (codes "Timelock")) (codes "DEFAULT_ADMIN_ROLE") _ refl
              (sends _ _ (sends _ _ (Follows-send H _)))))))

  deploy_vote_token-Follows :
      (network : Text)
      → Follows Anything (vote_token_plan H address role) (deploy_vote_token H network)
  unfolding deploy_vote_token
  deploy_vote_token-Follows network = deploys network (codes "OcnVoteToken") [] _ (
      next
        {P = called (address (codes "OcnVoteToken")) (codes "delegate") (text H.deployer ∷ []) ∷ []}
        _ _ (sends _ _ (next {P = []} _ _ (Follows-ask _ (λ h a e. tt)) (Follows-pure tt tt)))
        copied)

  deploy_plain-Follows :
      (network name : Text) (args : List Argument)
      → Follows Anything (plain_plan name args) (deploy_plain H network name args)
  unfolding deploy_plain
  deploy_plain-Follows network name args = deploys network name args _ copied

  deploy_timelock-Follows :
      (network : Text)
      → Follows Anything
          (plain_plan (codes "Timelock") (timelock_args H.deployer))
          (deploy_timelock H network)
  unfolding deploy_timelock
  deploy_timelock-Follows network =
      deploys network (codes "Timelock") (timelock_args H.deployer) _ copied

  deploy_governor-Follows :
      (network : Text) → Follows Anything (governor_plan H address role) (deploy_governor H network)
  unfolding deploy_governor
  deploy_governor-Follows network =
      gets (codes "OcnVoteToken") _
        (gets (codes "Timelock") _ (deploys network (codes "OcnGovernor") _ _ copied))

  deploy_governance-Follows :
      (network : Text)
      → Follows Anything (governance_plan H address role) (deploy_governance H network)
  unfolding deploy_governance
  deploy_governance-Follows network = next _ _ (deploy_vote_token-Follows network) (
      next _ _ (deploy_timelock-Follows network)
        (next _ _ (deploy_governor-Follows network) setup_governor-Follows))

  stablecoin_for-Follows :
      (is_address : Text → Bool) (e : PaymentEnvironment)
      → Follows (λ a. a ≡ coin_for H address role e) [] (stablecoin_for H is_address e)
  unfolding stablecoin_for
  stablecoin_for-Follows is_address e = elim (Bool-cases (is_full e.stablecoin_address)) [
    | inr empty ↦ rw empty (Follows-ask _ (λ h a found'. found h _ a found'))
    | inl full ↦ elim (Bool-cases (is_address e.stablecoin_address)) [
      | inl valid ↦ rw (full, valid) (Follows-pure _ refl)
      | inr bad ↦ rw (full, bad) (Follows-ask _ (λ h a e'. absurd (cc e')))
    ]
  ]

  deploy_payment_manager-Follows :
      (is_address : Text → Bool) (e : PaymentEnvironment)
      → Follows Anything (payment_plan H address role e) (deploy_payment_manager H is_address e)
  unfolding deploy_payment_manager
  deploy_payment_manager-Follows is_address e =
      known (stablecoin_for H is_address e) _ (coin_for H address role e)
        (stablecoin_for-Follows is_address e)
        (sends _ _ (
          known (ask (λ h. done (H.address_of h (codes "OcnPaymentManager")))) _
            (address (codes "OcnPaymentManager"))
            (Follows-ask _ (λ h a same. sym (returned_eq same) ∙ placed h _))
            (sends _ _ (sends _ _ (finds (codes "Timelock") _ (Follows-send H _))))))

  deploy_certificate_verifier-Follows :
      (network : Text)
      → Follows Anything
          (plain_plan (codes "CertificateVerifier") [])
          (deploy_certificate_verifier H network)
  unfolding deploy_certificate_verifier
  deploy_certificate_verifier-Follows network =
      deploys network (codes "CertificateVerifier") [] _
        (finds (codes "CertificateVerifier") _ copied)

  deploy_oracles-Follows :
      (network : Text) → Follows Anything (oracles_plan H address role) (deploy_oracles H network)
  unfolding deploy_oracles
  deploy_oracles-Follows network =
      deploys network (codes "EMSPOracle") [] _ (deploys network (codes "CPOOracle") [] _ copied)

  deploy_validator-Follows :
      (network : Text)
      → Follows Anything
          (plain_plan
            (codes "PartyRegistrationValidator")
            (text (address (codes "CertificateVerifier")) ∷ []))
          (deploy_validator H network)
  unfolding deploy_validator
  deploy_validator-Follows network =
      finds (codes "CertificateVerifier") _
        (deploys network (codes "PartyRegistrationValidator") _ _ copied)

  deploy_contracts-Follows :
      (parse_units : Text → Argument) (is_address : Text → Bool) (e : PaymentEnvironment)
      (network : Text)
      → Follows Anything
          (contracts_plan H address role parse_units e)
          (deploy_contracts H parse_units is_address e network)
  unfolding deploy_contracts deploy_stable_coin deploy_mock_coin
  deploy_contracts-Follows parse_units is_address e network =
      next _ _ (deploy_governance-Follows network) (
        next _ _ (deploy_plain-Follows network _ _) (
          next _ _ (deploy_plain-Follows network _ _) (
            next _ _ (deploy_payment_manager-Follows is_address e) (
              next _ _ (deploy_certificate_verifier-Follows network)
                (next _ _ (deploy_oracles-Follows network) (deploy_validator-Follows network))))))

  -- Suppose contracts are found, if they are, where they were deployed, and a role of the timelock is always the same. Whatever else is
  -- answered, and wherever the deployment of the contracts before the registry stops: what it has sent is the first
  -- part of one plan, and the whole plan if it finishes. In the plan the deployer gives up its role in the
  -- timelock only after the governor has become a proposer and the zero address an executor, and
  -- the payment manager is handed to the timelock.
  pub deploy_contracts_ordered :
      (parse_units : Text → Argument) (is_address : Text → Bool) (e : PaymentEnvironment)
      (network : Text) (h : List Sent)
      → let r = deploy_contracts H parse_units is_address e network h in
        Progress (contracts_plan H address role parse_units e) h r.1 (is_done r.0)
  deploy_contracts_ordered parse_units is_address e network h =
      (deploy_contracts-Follows parse_units is_address e network).at h
