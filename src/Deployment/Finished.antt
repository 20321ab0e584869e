-- ===== src/Deployment/Finished.antt =====
-- That the deployment scripts before that of the registry finish.
use ocn_registry_v.Base.{
  ◌≡◌, refl, sym, arith, ◌∙◌, ap, Bool, true, not, ◌||◌, inl, inr, Bool-cases, List, [], ◌∷◌, ◌++◌,
  contains, numbers_eq,
}
use mathlib.Core.List.{append-nil}
use ocn_registry_v.Text.{Text}
use ocn_registry_v.Client.Failures.{is_full}
use ocn_registry_v.Client.Wrapper.{Outcome, done, failed, is_done}
use ocn_registry_v.Deployment.Registry.{configured_networks}
use ocn_registry_v.Deployment.Hardhat.{
  Hardhat, Argument, Sent, Script, ◌>>=◌, pure, ask, send, deploy_contract, confirmations,
}
use ocn_registry_v.Deployment.Scripts.{
  PaymentEnvironment, deploy_vote_token, deploy_timelock, deploy_governor, setup_governor,
  deploy_plain, deploy_stable_coin, deploy_mock_coin, stablecoin_for, deploy_payment_manager,
  deploy_certificate_verifier, deploy_oracles, deploy_validator, deploy_governance,
  deploy_contracts,
}
use ocn_registry_v.Deployment.Ordered.{Progress}
use ocn_registry_v.Deployment.Plans.{IsStable, contracts_plan}
use ocn_registry_v.Deployment.Planned.{deploy_contracts_ordered}

-- A script that returns, after whatever was sent before.
pub record Finishes {A : Type 0} (m : Script A) : Type 0 where
  pub at : (h : List Sent) → is_done (m h).0 ≡ true

Finishes-bind :
    {A B : Type 0} (m : Script A) (f : A → Script B)
    → Finishes m
    → ((a : A) → Finishes (f a))
    → Finishes (m >>= f)
unfolding ◌>>=◌
Finishes-bind {A} {B} m f p q = record { at = λ h. go (m h).1 (m h).0 (p.at h) }
  where
    go :
        (t : List Sent) (r : Outcome A)
        → is_done r ≡ true
        → (let next : Outcome B × List Sent = elim r [
          | done a ↦ f a t
          | failed e ↦ (failed e, t)
        ] in
            is_done next.0)
          ≡ true
    go t (done a) e = (q a).at t
    go t (failed e') e = absurd (cc e)

Finishes-ask :
    {A : Type 0} (f : List Sent → Outcome A)
    → ((h : List Sent) → is_done (f h) ≡ true)
    → Finishes (ask f)
Finishes-ask f k = record { at = k }

Finishes-pure : {A : Type 0} (a : A) → Finishes (pure a)
Finishes-pure a = record { at = λ h. refl }

finished :
    {plan h : List Sent}
    → (r : Outcome (Unit {0}) × List Sent) → is_done r.0 ≡ true
    → Progress plan h r.1 (is_done r.0)
    → r ≡ (done tt, h ++ plan)
finished {plan} {h} (done _, t) e p =
    ap (λ l. (done tt, l))
      (p.trace
        ∙ ap (λ l. h ++ l)
            (sym (append-nil p.sent) ∙ ap (λ l. p.sent ++ l) (sym (p.whole refl)) ∙ p.parts))
finished (failed f, t) e p = absurd (cc e)

-- A network that takes and confirms everything, on which all is found.
pub record IsWilling (H : Hardhat) : Type 0 where
  pub accepts : (h : List Sent) (r : Sent) → H.accept h r ≡ done tt
  pub confirms : (h : List Sent) (r : Sent) → H.wait h r ≡ done tt
  pub finds : (h : List Sent) (name : Text) → is_done (H.contract h name) ≡ true
  pub gets : (h : List Sent) (name : Text) → is_done (H.get h name) ≡ true
  pub answers : (h : List Sent) (a name : Text) → is_done (H.query h a name) ≡ true

module _ (H : Hardhat) (w : IsWilling H) where
  Finishes-send : (r : Sent) → Finishes (send H r)
  unfolding send
  Finishes-send r = record { at = λ h. rw (send, w.accepts h r, w.confirms (h ++ r ∷ []) r) refl }

  module _ (network : Text) (configured : contains configured_networks network ≡ true) where
    Finishes-deploy :
        (name : Text) (args : List Argument) → Finishes (deploy_contract H network name args)
    unfolding deploy_contract
    Finishes-deploy name args =
        Finishes-bind (confirmations network) _ (Finishes-ask _ (λ h. rw configured refl))
          (λ _. Finishes-bind (send H _) _ (Finishes-send _) (λ _. Finishes-ask _ (λ h. refl)))

    ruleset finishing = (Finishes-bind, Finishes-ask, Finishes-pure, Finishes-send, Finishes-deploy)

    vote_token-Finishes : Finishes (deploy_vote_token H network)
    unfolding deploy_vote_token
    vote_token-Finishes = search (finishing, w.answers) depth 20

    timelock-Finishes : Finishes (deploy_timelock H network)
    unfolding deploy_timelock
    timelock-Finishes = search (finishing) depth 20

    governor-Finishes : Finishes (deploy_governor H network)
    unfolding deploy_governor
    governor-Finishes = search (finishing, w.gets) depth 20

    setup-Finishes : Finishes (setup_governor H)
    unfolding setup_governor
    setup-Finishes = search (finishing, w.finds, w.answers) depth 20

    plain-Finishes :
        (name : Text) (args : List Argument) → Finishes (deploy_plain H network name args)
    unfolding deploy_plain
    plain-Finishes name args = search finishing depth 20

    verifier-Finishes : Finishes (deploy_certificate_verifier H network)
    unfolding deploy_certificate_verifier
    verifier-Finishes = search (finishing, w.finds) depth 20

    oracles-Finishes : Finishes (deploy_oracles H network)
    unfolding deploy_oracles
    oracles-Finishes = search finishing depth 20

    validator-Finishes : Finishes (deploy_validator H network)
    unfolding deploy_validator
    validator-Finishes = search (finishing, w.finds) depth 20

    stablecoin-Finishes :
        (is_address : Text → Bool) (e : PaymentEnvironment)
        → (not (is_full e.stablecoin_address) || is_address e.stablecoin_address) ≡ true
        → Finishes (stablecoin_for H is_address e)
    unfolding stablecoin_for
    stablecoin-Finishes is_address e valid = elim (Bool-cases (is_full e.stablecoin_address)) [
      | inr empty ↦ rw empty (Finishes-ask _ (λ h. w.finds h _))
      | inl full ↦
          let given : is_address e.stablecoin_address ≡ true = ground (arith, full, valid) in
          rw (full, given) (Finishes-pure _)
    ]

    manager-Finishes :
        (is_address : Text → Bool) (e : PaymentEnvironment)
        → (not (is_full e.stablecoin_address) || is_address e.stablecoin_address) ≡ true
        → Finishes (deploy_payment_manager H is_address e)
    unfolding deploy_payment_manager
    manager-Finishes is_address e valid =
        Finishes-bind (stablecoin_for H is_address e) _ (stablecoin-Finishes is_address e valid)
          λ coin. search (finishing, w.finds) depth 30

    contracts-Finishes :
        (parse_units : Text → Argument) (is_address : Text → Bool) (e : PaymentEnvironment)
        → (not (is_full e.stablecoin_address) || is_address e.stablecoin_address) ≡ true
        → Finishes (deploy_contracts H parse_units is_address e network)
    unfolding deploy_contracts deploy_governance deploy_stable_coin deploy_mock_coin
    contracts-Finishes parse_units is_address e valid =
        search
          (
            Finishes-bind, vote_token-Finishes, timelock-Finishes, governor-Finishes,
            setup-Finishes, plain-Finishes, manager-Finishes, verifier-Finishes, oracles-Finishes,
            validator-Finishes,
          )
          depth 30

    -- Suppose the network is configured, takes and confirms all transactions, and all that is looked up is found,
    -- contracts where they were deployed and a role of the timelock always the same; and STABLECOIN_ADDRESS is not set or a valid address. Then the
    -- deployment of the contracts before the registry succeeds, and sends the whole plan in its order.
    pub deploy_contracts_sends :
        (address role : Text → Text) (stable : IsStable H address role)
        (parse_units : Text → Argument) (is_address : Text → Bool) (e : PaymentEnvironment)
        → (not (is_full e.stablecoin_address) || is_address e.stablecoin_address) ≡ true
        → (h : List Sent)
        → deploy_contracts H parse_units is_address e network h
          ≡ (done tt, h ++ contracts_plan H address role parse_units e)
    deploy_contracts_sends address role stable parse_units is_address e valid h =
        finished (deploy_contracts H parse_units is_address e network h)
          ((contracts-Finishes parse_units is_address e valid).at h)
          (deploy_contracts_ordered H address role stable parse_units is_address e network h)
