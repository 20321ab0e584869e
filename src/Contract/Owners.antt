-- ===== src/Contract/Owners.antt =====
-- The owners that the validator of registrations gives.
use ocn_registry_v.Base.{
  ◌≡◌, arith, ap, sym, ◌∙◌, ℕ, false, List, [], ◌∷◌, ◌==◌, numbers_eq, nat_eq, inl, inr, refl,
}
use ocn_registry_v.Client.Types.{RoleDetails, zero_address}
use ocn_registry_v.Contract.Validator.{Certificates, Verified, validate_registration}
use ocn_registry_v.Contract.Operations.{Outside}
use ocn_registry_v.Contract.Indexed.{at_zero}
use ocn_registry_v.Contract.PartySteps.{HasOwners}
use ocn_registry_v.Contract.Certified.{IsCertified, IsVerified, validate_registration-IsCertified}

no_roles : (n : ℕ) → n ≡ 0 → (n == 0) ≡ false → ⊥
no_roles n none_given h = absurd (ground (arith, none_given, h))

-- With certificates whose owners are not the zero address, the validator never gives the zero address as
-- the owner of some roles.
pub validate_registration-HasOwners :
    (C : Certificates) (O : Outside)
    → ((roles : List RoleDetails) → O.validate_registration roles ≡ validate_registration C roles)
    → ((r : RoleDetails) (v : Verified) → IsVerified C r v → (v.owner == zero_address) ≡ false)
    → HasOwners O
validate_registration-HasOwners C O is real [] owner found filled valid =
    absurd (no_roles 0 refl filled)
validate_registration-HasOwners C O is real (r ∷ roles) owner found filled valid =
    first
      (validate_registration-IsCertified C (r ∷ roles) owner found
        (sym (is (r ∷ roles)) ∙ valid)).2.0
  where
    first : IsCertified C owner r → (owner == zero_address) ≡ false
    first c = elim c.owned [
      | inl zero ↦ absurd (at_zero c.verified.owner zero (real r c.verified c.holds))
      | inr same ↦ ap (λ x. x == zero_address) (sym same) ∙ real r c.verified c.holds
    ]
