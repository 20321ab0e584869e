-- ===== src/Contract/Verifiers/Sent.antt =====
-- The transactions that allow verifiers, as deploy/09_deployOcnRegistry.ts sends them.
use mathlib.Core.List.{append-nil, append_assoc}
use ocn_registry_v.Base.{
  ◌≡◌, refl, sym, ap, ◌∙◌, arith, Bool, true, false, ◌&&◌, inl, inr, List, [], ◌∷◌, ◌++◌, nat_eq,
  numbers_eq, contains,
}
use ocn_registry_v.Text.{Text}
use ocn_registry_v.Client.Failures.{Failure}
use ocn_registry_v.Client.Wrapper.{done, failed, is_done}
use ocn_registry_v.Deployment.Verifiers.{
  DeployChain, dev_chains, allowed_from_env, allow_all, allow_verifiers,
}
use ocn_registry_v.Deployment.Allowed.{not_development}
use ocn_registry_v.Contract.Verifiers.Addresses.{readable_cases}

module _ (C : DeployChain) (verifier : Text) (verifiers h : List Text) where
  pub allow_refused :
      {e : Failure}
      → C.accept h verifier ≡ failed e
      → allow_all C (verifier ∷ verifiers) h ≡ (failed e, h)
  unfolding allow_all
  allow_refused refused = rw (allow_all, refused) refl

  allow_lost :
      {e : Failure}
      → C.accept h verifier ≡ done tt
      → C.wait (h ++ verifier ∷ []) verifier ≡ failed e
      → allow_all C (verifier ∷ verifiers) h ≡ (failed e, h ++ verifier ∷ [])
  unfolding allow_all
  allow_lost taken lost = rw (allow_all, taken, lost) refl

  pub allow_accepted :
      C.accept h verifier ≡ done tt
      → C.wait (h ++ verifier ∷ []) verifier ≡ done tt
      → allow_all C (verifier ∷ verifiers) h ≡ allow_all C verifiers (h ++ verifier ∷ [])
  unfolding allow_all
  allow_accepted taken confirmed = rw (allow_all, taken, confirmed) refl

pub both : (a b : Bool) → (a && b) ≡ true → b ≡ true
both a b h = ground (arith, h)

-- If all are allowed, a transaction was sent for each.
pub all_sent :
    (C : DeployChain) (raws h : List Text)
    → is_done (allow_all C raws h).0 ≡ true
    → allow_all C raws h ≡ (done tt, h ++ raws)
unfolding allow_all
all_sent C [] h ok = ap (λ sent. (done tt, sent)) (sym (append-nil h))
all_sent C (raw ∷ raws) h ok = elim (readable_cases (C.accept h raw)) [
  | inl (e, refused) ↦
      absurd (cc (sym (ap (λ r. is_done r.0) (allow_refused C raw raws h refused)) ∙ ok))
  | inr (_, taken) ↦ elim (readable_cases (C.wait (h ++ raw ∷ []) raw)) [
    | inl (e, lost) ↦
        absurd (cc (sym (ap (λ r. is_done r.0) (allow_lost C raw raws h taken lost)) ∙ ok))
    | inr (_, confirmed) ↦
        allow_accepted C raw raws h taken confirmed
        ∙ all_sent C raws (h ++ raw ∷ [])
            (sym (ap (λ r. is_done r.0) (allow_accepted C raw raws h taken confirmed)) ∙ ok)
        ∙ ap (λ sent. (done tt, sent)) (append_assoc h (raw ∷ []) raws)
  ]
]

pub allowing :
    (C : DeployChain) (network raw : Text)
    → contains dev_chains network ≡ false
    → allow_verifiers C network raw [] ≡ allow_all C (allowed_from_env raw) []
unfolding allow_verifiers
allowing C network raw production =
    rw (allow_verifiers, not_development C network raw [] production) refl
