-- ===== src/Contract/Administration.antt =====
-- The functions for administrators of contracts/OcnRegistry.sol and
-- contracts/PartyRegistrationValidator.sol, and the getters of an operator.
use ocn_registry_v.Base.{ℕ, Bool, true, false, not, List, [], ◌∷◌, ◌++◌, ◌==◌, nat_eq, numbers_eq}
use ocn_registry_v.Text.{Text, codes}
use ocn_registry_v.Client.Types.{Call, zero_address}
use ocn_registry_v.Client.Wrapper.{Outcome, done, ◌>=>◌}
use ocn_registry_v.Contract.Access.{Roles, default_admin_role, thrown_string, unauthorized, require}
use ocn_registry_v.Contract.State.{set, State, deployed}
use ocn_registry_v.Contract.Operations.{Outside, delete_node_of, delete_party_of, transact}

pub data ValidatorEntry : Type 0 where
  verifier_updated : Text → Bool → ValidatorEntry
  certificate_verifier_updated : Text → ValidatorEntry
  provider_oracle_updated : ℕ → Text → ValidatorEntry
  validator_owner_changed : Text → Text → ValidatorEntry

-- The storage of the validator.
pub record ValidatorState (H : Type 0) : Type 0 where
  pub allowed_certificate_verifiers : Text → Bool
  pub role_oracle : ℕ → Text
  pub certificate_verifier : Text
  pub held : H
  pub entries : List ValidatorEntry

-- The storage of the registry: its listings, the two contracts that it uses, and the roles.
pub record RegistryState (H : Type 0) : Type 0 where
  pub listings : State
  pub payment_manager : Text
  pub party_registration_validator : Text
  pub held : H
  pub owners : List (Text × Text)
  pub validators : List Text

-- The calls of the registry that are for administrators, and all others.
pub data RegistryCall : Type 0 where
  public_call : Call → RegistryCall
  operator_removed : Text → RegistryCall
  party_removed : Text → Text → RegistryCall
  validator_set ownership_given : Text → RegistryCall

module _ (R : Roles) where
  abbrev pub is_admin : Text → R.Held → Bool
  is_admin account held = R.has_role default_admin_role account held

  abbrev pub only_admin : Text → R.Held → Outcome (Unit {0})
  only_admin sender held = require (is_admin sender held) (unauthorized sender default_admin_role)

  -- `grantRole` to the new owner, and `revokeRole` from the sender
  abbrev pub handed : Text → Text → R.Held → R.Held
  handed sender owner held =
      R.revoke default_admin_role sender (R.grant default_admin_role owner held)

  -- The state that the constructor leaves.
  abbrev pub new_validator : Text → Text → ValidatorState R.Held
  new_validator sender verifier = record {
    allowed_certificate_verifiers = λ v. false;
    role_oracle = λ role. zero_address;
    certificate_verifier = verifier;
    held = R.grant default_admin_role sender R.nobody;
    entries = [];
  }

  unfoldable pub validator_transfer_ownership :
      Text → Text → ValidatorState R.Held → Outcome (ValidatorState R.Held)
  validator_transfer_ownership sender owner v = only_admin sender v.held >=> λ _. done (record v {
    held = handed sender owner v.held;
    entries = v.entries ++ validator_owner_changed sender owner ∷ [];
  })

  unfoldable pub set_certificate_verifier :
      Text → Text → ValidatorState R.Held → Outcome (ValidatorState R.Held)
  set_certificate_verifier sender verifier v = only_admin sender v.held >=> λ _.
      require (not (verifier == zero_address))
        (thrown_string (codes "Invalid certificate verifier address"))
      >=> λ _. done (record v {
        certificate_verifier = verifier;
        entries = v.entries ++ certificate_verifier_updated verifier ∷ [];
      })

  unfoldable pub set_verifier :
      Text → Text → ValidatorState R.Held → Outcome (ValidatorState R.Held)
  set_verifier sender verifier v = only_admin sender v.held >=> λ _.
      require (not (verifier == zero_address)) (thrown_string (codes "Invalid verifier address"))
      >=> λ _.
          require (not (v.allowed_certificate_verifiers verifier))
            (thrown_string (codes "Verifier already allowed"))
          >=> λ _. done (record v {
            allowed_certificate_verifiers = set verifier true v.allowed_certificate_verifiers;
            entries = v.entries ++ verifier_updated verifier true ∷ [];
          })

  unfoldable pub remove_verifier :
      Text → Text → ValidatorState R.Held → Outcome (ValidatorState R.Held)
  remove_verifier sender verifier v = only_admin sender v.held >=> λ _.
      require (not (verifier == zero_address)) (thrown_string (codes "Invalid verifier address"))
      >=> λ _.
          require (v.allowed_certificate_verifiers verifier)
            (thrown_string (codes "Verifier not currently allowed"))
          >=> λ _. done (record v {
            allowed_certificate_verifiers = set verifier false v.allowed_certificate_verifiers;
            entries = v.entries ++ verifier_updated verifier false ∷ [];
          })

  unfoldable pub set_provider_oracle :
      Text → ℕ → Text → ValidatorState R.Held → Outcome (ValidatorState R.Held)
  set_provider_oracle sender role oracle v = only_admin sender v.held >=> λ _. done (record v {
    role_oracle = set role oracle v.role_oracle;
    entries = v.entries ++ provider_oracle_updated role oracle ∷ [];
  })

  -- The state that the constructor of the registry leaves.
  abbrev pub new_registry : Text → Text → Text → RegistryState R.Held
  new_registry sender manager validator = record {
    listings = deployed;
    payment_manager = manager;
    party_registration_validator = validator;
    held = R.grant default_admin_role sender R.nobody;
    owners = [];
    validators = [];
  }

  abbrev pub with_listings : RegistryState R.Held → Outcome State → Outcome (RegistryState R.Held)
  with_listings r o = o >=> λ s. done (record r { listings = s })

  unfoldable pub administer :
      Outside → Text → RegistryCall → RegistryState R.Held → Outcome (RegistryState R.Held)
  administer O sender (public_call c) r = with_listings r (transact O sender c r.listings)
  administer O sender (operator_removed operator) r =
      only_admin sender r.held >=> λ _. with_listings r (delete_node_of operator r.listings)
  administer O sender (party_removed country_code party_id) r = only_admin sender r.held >=> λ _.
      with_listings r
        (delete_party_of O (r.listings.unique_parties country_code party_id) r.listings)
  administer O sender (validator_set validator) r = only_admin sender r.held >=> λ _.
      require (not (validator == zero_address))
        (thrown_string (codes "Invalid party registration validator"))
      >=> λ _. done (record r {
        party_registration_validator = validator;
        validators = r.validators ++ validator ∷ [];
      })
  administer O sender (ownership_given owner) r = only_admin sender r.held >=> λ _.
      done
        (record r { held = handed sender owner r.held; owners = r.owners ++ (sender, owner) ∷ [] })

unfoldable pub get_operator_by_address : Text → State → Text × Text
get_operator_by_address party s = (s.operator_of party, s.node_of (s.operator_of party))

unfoldable pub get_operator_by_ocpi : Text → Text → State → Text × Text
unfolding get_operator_by_address
get_operator_by_ocpi country_code party_id s =
    get_operator_by_address (s.unique_parties country_code party_id) s
