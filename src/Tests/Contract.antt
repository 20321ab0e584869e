-- ===== src/Tests/Contract.antt =====
-- The registry contract with a few operators and parties.
use ocn_registry_v.Base.{
  ◌≤◌, ◌≡◌, ◌≢◌, refl, true, false, some, none, List, [], ◌∷◌, map, numbers_eq, nat_eq,
}
use ocn_registry_v.Base.Lists.{length, All}
use ocn_registry_v.Text.{Text, codes}
use ocn_registry_v.Client.Failures.{new_error}
use ocn_registry_v.Client.Wrapper.{done, failed}
use ocn_registry_v.Client.Types.{Signature, RoleDetails, node_set}
use ocn_registry_v.Client.Registry.{set_node, get_node}
use ocn_registry_v.Contract.State.{State, deployed, set}
use ocn_registry_v.Contract.Validator.{
  Certificates, validate_registration, check_roles, check_role, verify_certificate, check_oracle,
}
use ocn_registry_v.Contract.Operations.{Outside, with_node, set_node_of, transact}
use ocn_registry_v.Tests.Staking.{some_roles, account}
use ocn_registry_v.Contract.Administration.{
  RegistryState, public_call, operator_removed, administer,
}
use ocn_registry_v.Contract.Administered.{Transaction, run_registry}
use ocn_registry_v.Base.{Bool}
use ocn_registry_v.Contract.Run.{run_own, network}
use ocn_registry_v.Contract.NodeCalls.{set_node-get_node, set_node_taken, taken_error}
use ocn_registry_v.Contract.Stranded.{reached, replaced_domain}
use ocn_registry_v.Contract.Certified.{IsCertified, validate_registration-IsCertified}
use ocn_registry_v.Tests.Client.{ethers, decoder, wrapper}

abbrev pub one : Text
one = 1 ∷ []

abbrev pub two : Text
two = 2 ∷ []

abbrev certificates : Certificates
certificates = record {
  verify_emp = λ c sig. done (record { verifier = two; identifier = c; owner = c });
  verify_cpo = λ c sig. done (record { verifier = two; identifier = c; owner = c });
  verify_other = λ c sig. done (record { verifier = two; identifier = c; owner = c });
  is_allowed_verifier = λ v. true;
  role_oracle = λ role. none;
  show_role = λ role. [];
}

abbrev pub outside : Outside
outside = record {
  recover_node = λ operator domain sig. operator;
  recover_deletion = λ operator sig. operator;
  validate_registration = validate_registration certificates;
  get_payment_status = λ party. 0;
}

abbrev pub sign_node : Text → Text → Signature
sign_node a domain = record { v = 27; r = a; s = domain }

abbrev pub sign_deletion : Text → Signature
sign_deletion a = record { v = 27; r = a; s = a }

abbrev domain : Text
domain = codes "https://ocn.org"

set_node-get_node_example :
    (set_node ethers decoder
        (network outside one sign_node sign_deletion [] deployed)
        (wrapper (some one) true)
        domain
        []
      ≡ (done (node_set domain), node_set domain ∷ []))
    × (get_node ethers decoder
          (network outside one sign_node sign_deletion [] deployed)
          (wrapper (some one) true)
          one
          (set_node ethers decoder
            (network outside one sign_node sign_deletion [] deployed)
            (wrapper (some one) true)
            domain
            []).1
        ≡ done (some domain))
unfolding run_own
set_node-get_node_example =
    set_node-get_node ethers decoder outside one sign_node sign_deletion [] deployed
      (wrapper (some one) true) [] domain domain refl refl refl refl refl refl refl

abbrev with_one : State
with_one = run_own outside one (node_set domain ∷ []) deployed

taken_by_one : with_one.unique_domains domain ≡ true
unfolding run_own transact set_node_of set numbers_eq
taken_by_one = refl

nothing_at_two : with_one.node_of two ≡ []
unfolding run_own transact set_node_of set numbers_eq
nothing_at_two = refl

set_node_taken_example :
    set_node ethers decoder
      (network outside two sign_node sign_deletion [] with_one)
      (wrapper (some two) true)
      domain
      []
    ≡ (
      failed (new_error (codes "Domain name already registered: Domain name already registered.")),
      [],
    )
unfolding run_own
set_node_taken_example =
    set_node_taken ethers decoder outside two sign_node sign_deletion [] with_one
      (wrapper (some two) true) [] domain domain refl refl refl refl refl nothing_at_two
      taken_by_one

abbrev other_domain : Text
other_domain = codes "https://x.org"

abbrev past : List Transaction
past = (outside, one, public_call (node_set domain)) ∷ []

abbrev registry : RegistryState (Text → Text → Bool)
registry = reached some_roles (account 3) [] (account 9) past

owned : registry.listings.node_of one ≡ domain
unfolding run_registry administer transact set_node_of set numbers_eq
owned = refl

free_second : registry.listings.unique_domains other_domain ≡ false
unfolding run_registry administer transact set_node_of set numbers_eq
free_second = refl

abbrev later : List Transaction
later =
    (outside, one, public_call (node_set other_domain))
    ∷ (outside, account 3, operator_removed one)
    ∷ []

replaced_domain_example :
    (administer some_roles outside one (public_call (node_set other_domain)) registry
      ≡ done (record registry { listings = with_node one other_domain registry.listings }))
    × ((a : Text) → (run_registry some_roles later registry).listings.node_of a ≢ domain)
    × (administer some_roles outside two
          (public_call (node_set domain))
          (run_registry some_roles later registry)
        ≡ failed taken_error)
replaced_domain_example =
    replaced_domain some_roles (account 3) [] (account 9) past one domain other_domain outside
      outside ((outside, account 3, operator_removed one) ∷ []) two owned refl refl free_second

-- A certificate is its owner's address.
abbrev pub role_of : Text → List RoleDetails
role_of owner = record { certificate_data = owner; signature = codes "0x02"; role = 1 } ∷ []

pub one_accepted : validate_registration certificates (role_of one) ≡ done (one, 1 ∷ [])
unfolding validate_registration check_roles check_role verify_certificate check_oracle numbers_eq
    nat_eq
one_accepted = refl

pub two_accepted : validate_registration certificates (role_of two) ≡ done (two, 1 ∷ [])
unfolding validate_registration check_roles check_role verify_certificate check_oracle numbers_eq
    nat_eq
two_accepted = refl

validate_registration-IsCertified_example :
    (length (role_of one) ≤ 255)
    × ((1 ∷ []) ≡ map (λ r. r.role) (role_of one))
    × All (IsCertified certificates one) (role_of one)
validate_registration-IsCertified_example =
    validate_registration-IsCertified certificates (role_of one) one (1 ∷ []) one_accepted
