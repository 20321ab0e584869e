-- ===== src/Contract/Verifiers.antt =====
-- The verifiers that the deployment (deploy/09_deployOcnRegistry.ts) lets sign certificates, on the
-- contract of the validator.
pub mod New
pub mod Addresses
pub mod Sent
use mathlib.Core.List.{append-nil, append_assoc}
use ocn_registry_v.Base.{
  ◌≡◌, refl, sym, ap, ◌∙◌, arith, Bool, true, false, not, ◌&&◌, ◌||◌, Bool-cases, inl, inr, ◌⊎◌,
  List, [], ◌∷◌, ◌++◌, ◌==◌, nat_eq, numbers_eq, contains,
}
use ocn_registry_v.Text.{Text, codes}
use ocn_registry_v.Client.Failures.{Failure}
use ocn_registry_v.Client.Types.{zero_address}
use ocn_registry_v.Client.Wrapper.{Outcome, done, failed, ◌>=>◌, is_done}
use ocn_registry_v.Contract.Access.{Roles, default_admin_role, thrown_string}
use ocn_registry_v.Contract.Administration.{
  ValidatorState, set_verifier, is_admin, new_validator, verifier_updated,
}
use ocn_registry_v.Contract.State.{set}
use ocn_registry_v.Deployment.Verifiers.{
  DeployChain, dev_chains, allowed_from_env, allow_all, allow_verifiers,
}
use ocn_registry_v.Deployment.Allowed.{not_development}
use ocn_registry_v.Contract.Verifiers.Addresses.{
  are_readable, addresses_of, addresses_of-read, addresses_of-append, readable_cases,
}
use ocn_registry_v.Contract.Verifiers.New.{all_new, is_distinct, none_allowed_at_first, all_new_lem}
use ocn_registry_v.Contract.Verifiers.Sent.{both, all_sent, allowing, allow_refused, allow_accepted}

module _ (R : Roles) (deployer : Text) where
  abbrev after_call :
      Outcome (ValidatorState R.Held) → ValidatorState R.Held → ValidatorState R.Held
  after_call (done v) old = v
  after_call (failed e) old = old

  abbrev accepted : Outcome (ValidatorState R.Held) → Outcome (Unit {0})
  accepted (done v) = done tt
  accepted (failed e) = failed e

  -- The calls of `setVerifier` by the deployer, one after the other.
  unfoldable pub set_verifiers : List Text → ValidatorState R.Held → ValidatorState R.Held
  set_verifiers [] v = v
  set_verifiers (verifier ∷ verifiers) v =
      set_verifiers verifiers (after_call (set_verifier R deployer verifier v) v)

  -- The network of the deployment, on which nothing fails but the contract and the reading of an address.
  abbrev pub validator_chain :
      (Text → Outcome Text) → Outcome Text → Outcome Text → ValidatorState R.Held → DeployChain
  validator_chain encode cpo emp v = record {
    cpo_verifier = λ h. cpo;
    emp_verifier = λ h. emp;
    accept = λ h raw. encode raw >=> λ verifier.
        accepted (set_verifier R deployer verifier (set_verifiers (addresses_of encode h) v));
    wait = λ h verifier. done tt;
  }

  set_verifiers-append :
      (h : List Text) (verifier : Text) (v : ValidatorState R.Held)
      → set_verifiers (h ++ verifier ∷ []) v
        ≡ after_call (set_verifier R deployer verifier (set_verifiers h v)) (set_verifiers h v)
  unfolding set_verifiers
  set_verifiers-append [] verifier v = refl
  set_verifiers-append (w ∷ h) verifier v = set_verifiers-append h verifier _

  -- The state after a verifier was allowed.
  abbrev with_verifier : Text → ValidatorState R.Held → ValidatorState R.Held
  with_verifier verifier v = record v {
    allowed_certificate_verifiers = set verifier true v.allowed_certificate_verifiers;
    entries = v.entries ++ verifier_updated verifier true ∷ [];
  }

  module _ (verifier : Text) (v : ValidatorState R.Held)
      (admin : is_admin R deployer v.held ≡ true) where
    set_verifier_zero :
        (verifier == zero_address) ≡ true
        → set_verifier R deployer verifier v
          ≡ failed (thrown_string (codes "Invalid verifier address"))
    unfolding set_verifier
    set_verifier_zero zero = rw (admin, zero) refl

    set_verifier_again :
        (verifier == zero_address) ≡ false
        → v.allowed_certificate_verifiers verifier ≡ true
        → set_verifier R deployer verifier v
          ≡ failed (thrown_string (codes "Verifier already allowed"))
    unfolding set_verifier
    set_verifier_again some_address again = rw (admin, some_address, again) refl

    set_verifier_new :
        (verifier == zero_address) ≡ false
        → v.allowed_certificate_verifiers verifier ≡ false
        → set_verifier R deployer verifier v ≡ done (with_verifier verifier v)
    unfolding set_verifier
    set_verifier_new some_address fresh = rw (admin, some_address, fresh) refl

  after_new :
      (verifier : Text) (h : List Text) (v : ValidatorState R.Held)
      → is_admin R deployer (set_verifiers h v).held ≡ true
      → (verifier == zero_address) ≡ false
      → (set_verifiers h v).allowed_certificate_verifiers verifier ≡ false
      → set_verifiers (h ++ verifier ∷ []) v ≡ with_verifier verifier (set_verifiers h v)
  after_new verifier h v admin some_address fresh =
      set_verifiers-append h verifier v
      ∙ ap (λ o. after_call o (set_verifiers h v))
          (set_verifier_new verifier (set_verifiers h v) admin some_address fresh)

  module _ (encode : Text → Outcome Text) (cpo emp : Outcome Text) (v : ValidatorState R.Held) where
    abbrev chain : DeployChain
    chain = validator_chain encode cpo emp v

    -- The state after transactions that were sent with these texts.
    abbrev state_after : List Text → ValidatorState R.Held
    state_after h = set_verifiers (addresses_of encode h) v

    answered :
        (raw verifier : Text) (h : List Text)
        → encode raw ≡ done verifier
        → chain.accept h raw ≡ accepted (set_verifier R deployer verifier (state_after h))
    answered raw verifier h read = rw read refl

    unread_refused :
        (raw : Text) (h : List Text) (e : Failure)
        → encode raw ≡ failed e
        → chain.accept h raw ≡ failed e
    unread_refused raw h e unread = rw unread refl

    -- Whether texts can be read and their addresses all be allowed, after some transactions.
    abbrev may_all : List Text → List Text → Bool
    may_all raws h =
        are_readable encode raws
        && all_new (state_after h).allowed_certificate_verifiers (addresses_of encode raws)

    may_all-read :
        (raw verifier : Text) (raws h : List Text)
        → encode raw ≡ done verifier
        → may_all (raw ∷ raws) h ≡ (
            are_readable encode raws
            && all_new
                (state_after h).allowed_certificate_verifiers
                (verifier ∷ addresses_of encode raws))
    may_all-read raw verifier raws h read = rw (addresses_of-read encode raws read) (rw read refl)

    sent_with :
        (raw verifier : Text) (h : List Text)
        → encode raw ≡ done verifier
        → is_admin R deployer (state_after h).held ≡ true
        → (verifier == zero_address) ≡ false
        → (state_after h).allowed_certificate_verifiers verifier ≡ false
        → state_after (h ++ raw ∷ []) ≡ with_verifier verifier (state_after h)
    sent_with raw verifier h read admin some_address fresh =
        ap (λ xs. set_verifiers xs v) (addresses_of-append encode h raw verifier read)
        ∙ after_new verifier (addresses_of encode h) v admin some_address fresh

    module _ (raw verifier : Text) (raws h : List Text) (read : encode raw ≡ done verifier)
        (admin : is_admin R deployer (state_after h).held ≡ true) where
      refused_first :
          {e : Failure}
          → set_verifier R deployer verifier (state_after h) ≡ failed e
          → is_done (allow_all chain (raw ∷ raws) h).0 ≡ false
      refused_first refused =
          ap (λ r. is_done r.0)
            (allow_refused chain raw raws h (answered raw verifier h read ∙ ap accepted refused))

      all_new_first :
          (is_admin R deployer (state_after (h ++ raw ∷ [])).held ≡ true
            → is_done (allow_all chain raws (h ++ raw ∷ [])).0 ≡ may_all raws (h ++ raw ∷ []))
          → is_done (allow_all chain (raw ∷ raws) h).0 ≡ (
              are_readable encode raws
              && all_new
                  (state_after h).allowed_certificate_verifiers
                  (verifier ∷ addresses_of encode raws))
      all_new_first rest =
          let w : ValidatorState R.Held = state_after h in
          elim (Bool-cases (verifier == zero_address)) [
            | inl zero ↦
                refused_first (set_verifier_zero verifier w admin zero) ∙ rw zero (ground arith)
            | inr some_address ↦ elim (Bool-cases (w.allowed_certificate_verifiers verifier)) [
              | inl again ↦
                  refused_first (set_verifier_again verifier w admin some_address again)
                  ∙ rw (some_address, again) (ground arith)
              | inr fresh ↦
                  let e = sent_with raw verifier h read admin some_address fresh in
                  ap (λ r. is_done r.0)
                    (allow_accepted chain raw raws h
                      (answered raw verifier h read
                        ∙ ap accepted (set_verifier_new verifier w admin some_address fresh))
                      refl)
                  ∙ rest (ap (λ u. is_admin R deployer u.held) e ∙ admin)
                  ∙ ap
                      (λ u.
                        are_readable encode raws
                        && all_new u.allowed_certificate_verifiers (addresses_of encode raws))
                      e
                  ∙ rw (some_address, fresh) refl
            ]
          ]

    allow_all-all_new :
        (raws h : List Text)
        → is_admin R deployer (state_after h).held ≡ true
        → is_done (allow_all chain raws h).0 ≡ may_all raws h
    unfolding allow_all addresses_of
    allow_all-all_new [] h admin = refl
    allow_all-all_new (raw ∷ raws) h admin =
        let rest = allow_all-all_new raws (h ++ raw ∷ []) in
        elim (readable_cases (encode raw)) [
          | inl (e, unread) ↦
              ap (λ r. is_done r.0) (allow_refused chain raw raws h (unread_refused raw h e unread))
              ∙ rw unread refl
          | inr (verifier, read) ↦
              all_new_first raw verifier raws h read admin rest
              ∙ sym (may_all-read raw verifier raws h read)
        ]

  -- What is allowed after calls that may all be made: what was allowed before, and what they name.
  set_verifiers_allowed :
      (verifiers : List Text) (u : ValidatorState R.Held)
      → is_admin R deployer u.held ≡ true
      → all_new u.allowed_certificate_verifiers verifiers ≡ true
      → (address : Text)
      → (set_verifiers verifiers u).allowed_certificate_verifiers address
        ≡ (contains verifiers address || u.allowed_certificate_verifiers address)
  unfolding set_verifiers set
  set_verifiers_allowed [] u admin new address = refl
  set_verifiers_allowed (verifier ∷ verifiers) u admin new address =
      let first : (verifier == zero_address) ≡ false = ground (arith, new) in
      let second : u.allowed_certificate_verifiers verifier ≡ false = ground (arith, new, first) in
      let rest : all_new (set verifier true u.allowed_certificate_verifiers) verifiers ≡ true =
        ground (arith, new, first, second) in
      ap (λ o. (set_verifiers verifiers (after_call o u)).allowed_certificate_verifiers address)
        (set_verifier_new verifier u admin first second)
      ∙ set_verifiers_allowed verifiers (with_verifier verifier u) admin rest address
      ∙ ground arith

  -- Suppose the validator was deployed by the same account, the network is none of the development chains, and
  -- nothing fails but the contract and the reading of an address. Then the step of the deployment that allows
  -- verifiers succeeds exactly if each text in ALLOWED_VERIFIERS can be read as an address, and the addresses,
  -- however they are spelled, neither have the zero address among them nor one address twice; and if it does, the
  -- verifiers that are allowed afterwards are those addresses.
  pub allow_verifiers_distinct :
      (encode : Text → Outcome Text) (cpo emp : Outcome Text)
      (network raw certificate_verifier : Text)
      → contains dev_chains network ≡ false
      → let v = new_validator R deployer certificate_verifier in
        let named = allowed_from_env raw in
        let addresses = addresses_of encode named in
        let ended = allow_verifiers (validator_chain encode cpo emp v) network raw [] in
        (is_done ended.0 ≡ (
          are_readable encode named
          && not (contains addresses zero_address)
          && is_distinct addresses))
        × (is_done ended.0 ≡ true
            → (address : Text)
            → (set_verifiers (addresses_of encode ended.1) v).allowed_certificate_verifiers address
              ≡ contains addresses address)
  unfolding set_verifiers addresses_of
  allow_verifiers_distinct encode cpo emp network raw certificate_verifier production =
      let v = new_validator R deployer certificate_verifier in
      let C = validator_chain encode cpo emp v in
      let named = allowed_from_env raw in
      let addresses = addresses_of encode named in
      let admin : is_admin R deployer v.held ≡ true =
        R.has_role-grant default_admin_role deployer default_admin_role deployer R.nobody
        ∙ ground arith in
      let ran : allow_verifiers C network raw [] ≡ allow_all C named [] =
        allowing C network raw production in
      let ended : is_done (allow_verifiers C network raw []).0
          ≡ (are_readable encode named && all_new (λ _. false) addresses) =
        ap (λ (r : Outcome (Unit {0}) × List Text). is_done r.0) ran
        ∙ allow_all-all_new encode cpo emp v named [] admin in
      (
        ended
            ∙ ap (λ b. are_readable encode named && b) (all_new_lem (λ _. false) addresses)
            ∙ ground (arith, none_allowed_at_first addresses),
        λ succeeded address.
            ap
              (λ (r : Outcome (Unit {0}) × List Text).
                (set_verifiers (addresses_of encode r.1) v).allowed_certificate_verifiers address)
              (ran
                ∙ all_sent C named [] (
                    sym (ap (λ (r : Outcome (Unit {0}) × List Text). is_done r.0) ran) ∙ succeeded))
            ∙ set_verifiers_allowed addresses v admin (both _ _ (sym ended ∙ succeeded)) address
            ∙ ground arith,
      )
