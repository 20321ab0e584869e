-- ===== src/Deployment/Verifiers.antt =====
-- The part of deploy/09_deployOcnRegistry.ts that lets verifiers sign certificates.
use ocn_registry_v.Base.{
  List, [], ◌∷◌, ◌++◌, ◌==◌, numbers_eq, nat_eq, map, contains, ltb, if◌then◌else◌,
}
use ocn_registry_v.Base.Lists.{length, keep}
use ocn_registry_v.Text.{Text, codes, split, trim}
use ocn_registry_v.Client.Failures.{is_full}
use ocn_registry_v.Client.Wrapper.{Outcome, done, failed, ◌>=>◌}

-- The contracts on the network, by the calls of `setVerifier` that were sent before.
pub record DeployChain : Type 0 where
  -- the verifiers that `verifyCPO` and `verifyEMP` find in the test certificates
  pub cpo_verifier : List Text → Outcome Text
  pub emp_verifier : List Text → Outcome Text
  -- whether the network takes `setVerifier`
  pub accept : List Text → Text → Outcome (Unit {0})
  -- `tx.wait(1)`
  pub wait : List Text → Text → Outcome (Unit {0})

abbrev pub dev_chains : List Text
dev_chains = codes "hardhat" ∷ codes "localhost" ∷ codes "ganache" ∷ codes "minikube" ∷ []

unfoldable pub allowed_from_env : Text → List Text
allowed_from_env raw = keep is_full (map trim (split b',' raw))

-- `Array.from(new Set([…].filter(…)))` of two
abbrev pub distinct_of : Text → Text → List Text
distinct_of a b = if a == b then keep is_full (a ∷ []) else keep is_full (a ∷ b ∷ [])

module _ (C : DeployChain) where
  unfoldable pub verifiers_to_allow : Text → Text → List Text → Outcome (List Text)
  verifiers_to_allow network raw h =
      if ltb 0 (length (allowed_from_env raw))
      then done (allowed_from_env raw)
      else if contains dev_chains network
      then (C.cpo_verifier h >=> λ cpo. C.emp_verifier h >=> λ emp. done (distinct_of cpo emp))
      else done []

  unfoldable pub allow_all : List Text → List Text → Outcome (Unit {0}) × List Text
  allow_all [] h = (done tt, h)
  allow_all (verifier ∷ verifiers) h = elim (C.accept h verifier) [
    | failed e ↦ (failed e, h)
    | done _ ↦ elim (C.wait (h ++ verifier ∷ []) verifier) [
      | failed e ↦ (failed e, h ++ verifier ∷ [])
      | done _ ↦ allow_all verifiers (h ++ verifier ∷ [])
    ]
  ]

  unfoldable pub allow_verifiers : Text → Text → List Text → Outcome (Unit {0}) × List Text
  allow_verifiers network raw h = elim (verifiers_to_allow network raw h) [
    | failed e ↦ (failed e, h)
    | done verifiers ↦ allow_all verifiers h
  ]
