-- ===== src/Contract/Validator.antt =====
-- `validateRegistration` of contracts/PartyRegistrationValidator.sol. The certificate verifier and the
-- oracles are other contracts.
use ocn_registry_v.Base.{
  ℕ, ◌+◌, Bool, Option, none, some, List, [], ◌∷◌, ◌==◌, nat_eq, numbers_eq, ltb, if◌then◌else◌,
}
use ocn_registry_v.Text.{Text, codes}
use ocn_registry_v.Client.Failures.{plain, number, Failure, new_error}
use ocn_registry_v.Client.Wrapper.{Outcome, done, failed, ◌>=>◌}
use ocn_registry_v.Client.Types.{RoleDetails, zero_address}
use ocn_registry_v.Contract.State.{reverted}

-- What a verifier reads out of a certificate: who signed it, whom it names, and who owns it.
pub record Verified : Type 0 where
  pub verifier : Text
  pub identifier : Text
  pub owner : Text

pub record Certificates : Type 0 where
  pub verify_emp : Text → Text → Outcome Verified
  pub verify_cpo : Text → Text → Outcome Verified
  pub verify_other : Text → Text → Outcome Verified
  pub is_allowed_verifier : Text → Bool
  -- The oracle of a role, if one is set, by the identifier of the provider that it returns.
  pub role_oracle : ℕ → Option (Text → Outcome Text)
  -- a role or an address as an argument of an error
  pub show_role : ℕ → Text

abbrev pub emsp : ℕ
emsp = 1

abbrev pub cpo : ℕ
cpo = 0

abbrev pub owner_or : Text → Text → Text
owner_or credential_owner owner =
    if credential_owner == zero_address then owner else credential_owner

module _ (C : Certificates) where
  abbrev invalid : Text → Text → Failure
  invalid verifier reason = record (new_error (codes "execution reverted")) {
    revert =
        some
          (record { name = codes "InvalidCertificate"; args = plain verifier ∷ plain reason ∷ [] });
  }

  abbrev pub if_allowed : Text → Verified → Outcome Verified
  if_allowed reason v =
      if C.is_allowed_verifier v.verifier then done v else failed (invalid v.verifier reason)

  unfoldable pub verify_certificate : RoleDetails → Outcome Verified
  verify_certificate r =
      if r.role == emsp
      then C.verify_emp r.certificate_data r.signature
        >=> if_allowed (codes "Invalid EMP certificate")
      else if r.role == cpo
      then C.verify_cpo r.certificate_data r.signature
        >=> if_allowed (codes "Invalid CPO certificate")
      else C.verify_other r.certificate_data r.signature
        >=> if_allowed (codes "Invalid Other certificate")

  abbrev not_found : ℕ → Failure
  not_found role = record (new_error (codes "execution reverted")) {
    revert = some (record {
      name = codes "ProviderNotFound";
      args = number (C.show_role role) ∷ plain (codes "Not active in oracle") ∷ [];
    });
  }

  unfoldable pub check_oracle : Option (Text → Outcome Text) → ℕ → Text → Outcome (Unit {0})
  check_oracle none role identifier = done tt
  check_oracle (some oracle) role identifier = oracle identifier >=> λ found.
      if identifier == found then done tt else failed (not_found role)

  -- One round of the loop: the new `credentialOwner`.
  unfoldable pub check_role : RoleDetails → Text → Outcome Text
  check_role r credential_owner = verify_certificate r >=> λ v.
      if owner_or credential_owner v.owner == v.owner
      then (check_oracle (C.role_oracle r.role) r.role v.identifier >=> λ _.
          done (owner_or credential_owner v.owner))
      else failed
          (reverted (codes "CerificateOwnerMismatch") (codes "Certificates have different owners"))

  -- The loop from index i on. Its counter is a `uint8`: counting past 255 panics.
  unfoldable pub check_roles : ℕ → List RoleDetails → Text → Outcome (Text × List ℕ)
  check_roles i [] credential_owner = done (credential_owner, [])
  check_roles i (r ∷ roles) credential_owner = check_role r credential_owner >=> λ owner.
      if ltb i 255
      then (check_roles (i + 1) roles owner >=> λ rest. done (rest.0, r.role ∷ rest.1))
      else failed (new_error (codes "Panic due to OVERFLOW(17)"))

  unfoldable pub validate_registration : List RoleDetails → Outcome (Text × List ℕ)
  validate_registration roles = check_roles 0 roles zero_address
