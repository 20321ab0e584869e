-- ===== src/Deployment/Allowed.antt =====
-- The verifiers that a checked deployment lets sign certificates.
use mathlib.Core.List.{append-nil, append_assoc}
use mathlib.Core.Path.{subst}
use ocn_registry_v.Base.{
  ◌≡◌, refl, sym, ap, ◌∙◌, arith, Bool, true, false, not, ◌||◌, List, [], ◌∷◌, ◌++◌, ◌==◌,
  numbers_eq, nat_eq, contains, ltb, if◌then◌else◌,
}
use ocn_registry_v.Base.Lists.{length, keep, All}
use ocn_registry_v.Text.{Text, codes, split, split_from, trim, trim_start, trim_end}
use ocn_registry_v.Client.Failures.{is_full}
use ocn_registry_v.Client.Wrapper.{done, ◌>=>◌}
use ocn_registry_v.Client.Outcomes.{bind_done, if_done}
use ocn_registry_v.Deployment.Preflight.{
  Environment, parse_allowed_verifiers, check_verifiers, preflight, ensure, assert_private_key,
}
use ocn_registry_v.Deployment.Verifiers.{
  DeployChain, dev_chains, allowed_from_env, verifiers_to_allow, allow_all, allow_verifiers,
  distinct_of,
}

-- The two readings of the variable agree.
parse_allowed_verifiers-allowed_from_env :
    (raw : Text) → parse_allowed_verifiers raw ≡ allowed_from_env raw
unfolding parse_allowed_verifiers allowed_from_env split split_from trim trim_start trim_end keep
parse_allowed_verifiers-allowed_from_env [] = refl
parse_allowed_verifiers-allowed_from_env (c ∷ raw) = refl

module _ (is_address : Text → Bool) where
  checked_verifiers :
      (vs : List Text) → check_verifiers is_address vs ≡ done tt → All (λ v. is_address v ≡ true) vs
  unfolding check_verifiers
  checked_verifiers [] h = tt
  checked_verifiers (v ∷ vs) h =
      let first = bind_done (ensure (is_address v) _) _ tt h in
      ((if_done (is_address v) (done tt) _ first.0 first.1.0).0, checked_verifiers vs first.1.1)

  preflight_checks :
      (mode stablecoin : Text) (e : Environment) (b : Bool)
      → preflight is_address mode stablecoin e ≡ done b
      → check_verifiers is_address (parse_allowed_verifiers e.allowed_verifiers) ≡ done tt
  unfolding preflight
  preflight_checks mode stablecoin e b h =
      let a_mode =
        bind_done
          (ensure (mode == codes "mock" || mode == codes "external") (
            codes
              "Usage: ts-node scripts/deployment/preflight.ts <mock|external> [stablecoin-address]"))
          _ b h in
      let a_key =
        bind_done (assert_private_key (codes "DEPLOYER_PRIVATE_KEY") e.deployer_private_key) _ b
          a_mode.1.1 in
      let an_operator =
        bind_done
          (ensure (not (is_full e.default_operator) || is_address e.default_operator)
            (codes "Invalid DEFAULT_OPERATOR: " ++ e.default_operator))
          _ b a_key.1.1 in
      let verifiers =
        bind_done (check_verifiers is_address (parse_allowed_verifiers e.allowed_verifiers)) _ b
          an_operator.1.1 in
      verifiers.1.0

module _ (C : DeployChain) where
  pub not_development :
      (network raw : Text) (h : List Text)
      → contains dev_chains network ≡ false
      → verifiers_to_allow C network raw h ≡ done (allowed_from_env raw)
  unfolding verifiers_to_allow
  not_development network raw h production = by_list (allowed_from_env raw)
    where
      by_list :
          (vs : List Text)
          → (if ltb 0 (length vs)
              then done vs
              else if contains dev_chains network
              then (C.cpo_verifier h >=> λ cpo.
                  C.emp_verifier h >=> λ emp. done (distinct_of cpo emp))
              else done [])
            ≡ done vs
      by_list [] = rw production refl
      by_list (v ∷ vs) = ground arith

module _ (C : DeployChain)
    (takes : (h : List Text) (v : Text) → (C.accept h v ≡ done tt) × (C.wait h v ≡ done tt)) where
  pub allow_all_sent : (vs h : List Text) → allow_all C vs h ≡ (done tt, h ++ vs)
  unfolding allow_all
  allow_all_sent [] h = ap (λ t. (done tt, t)) (sym (append-nil h))
  allow_all_sent (v ∷ vs) h =
      rw (allow_all, (takes h v).0, (takes (h ++ v ∷ []) v).1)
        (allow_all_sent vs (h ++ v ∷ []) ∙ ap (λ t. (done tt, t)) (append_assoc h (v ∷ []) vs))

  -- If the checks before a deployment pass, whatever the mode, and the network is none of the
  -- development chains and takes and confirms all transactions, then the deployment of the registry lets exactly
  -- the verifiers of ALLOWED_VERIFIERS sign certificates, in their order, and each of them is a valid address.
  -- If the variable names none, that is no verifier at all.
  pub preflight-allow_verifiers :
      (is_address : Text → Bool) (mode stablecoin network : Text) (e : Environment) (b : Bool)
      (h : List Text)
      → preflight is_address mode stablecoin e ≡ done b
      → contains dev_chains network ≡ false
      → (allow_verifiers C network e.allowed_verifiers h
          ≡ (done tt, h ++ allowed_from_env e.allowed_verifiers))
        × All (λ v. is_address v ≡ true) (allowed_from_env e.allowed_verifiers)
  unfolding allow_verifiers
  preflight-allow_verifiers is_address mode stablecoin network e b h passed production = (
    rw (allow_verifiers, not_development C network e.allowed_verifiers h production)
        (allow_all_sent (allowed_from_env e.allowed_verifiers) h),
    checked_verifiers is_address (allowed_from_env e.allowed_verifiers) (
        subst (λ vs. check_verifiers is_address vs ≡ done tt)
          (parse_allowed_verifiers-allowed_from_env e.allowed_verifiers)
          (preflight_checks is_address mode stablecoin e b passed)),
  )
