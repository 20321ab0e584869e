-- ===== src/Tests/Parties.antt =====
-- A party of the registry contract that changes its code.
use ocn_registry_v.Base.{◌≡◌, refl, [], ◌∷◌, numbers_eq, nat_eq, ◌==◌, if◌then◌else◌}
use ocn_registry_v.Text.{Text, codes}
use ocn_registry_v.Client.Wrapper.{done, failed}
use ocn_registry_v.Client.Types.{party_set, party_deleted, zero_address}
use ocn_registry_v.Contract.State.{State, deployed}
use ocn_registry_v.Contract.Operations.{without_party, transact, get_party_details_by_ocpi}
use ocn_registry_v.Contract.Parties.{replaced_code, other_owner}
use ocn_registry_v.Base.{ap, sym, some, List, true}
use ocn_registry_v.Contract.Operations.{Outside}
use ocn_registry_v.Client.Outcomes.{done_inj}
use ocn_registry_v.Client.Registry.{get_all_parties}
use ocn_registry_v.Client.Types.{PartyDetails, RoleDetails, node_set}
use ocn_registry_v.Contract.Run.{run_own, network}
use ocn_registry_v.Contract.PartySteps.{HasOwners}
use ocn_registry_v.Contract.PartyList.{ListsParties, get_all_parties-ListsParties}
use ocn_registry_v.Tests.Client.{ethers, decoder, wrapper}
use ocn_registry_v.Base.{none, false}
use ocn_registry_v.Client.Wrapper.{Outcome}
use ocn_registry_v.Contract.Validator.{Certificates, Verified, validate_registration}
use ocn_registry_v.Contract.Certified.{IsVerified, as_emsp, as_cpo, as_other}
use ocn_registry_v.Tests.Staking.{some_roles, account}
use ocn_registry_v.Contract.Administration.{public_call, validator_set, new_registry}
use ocn_registry_v.Contract.Administered.{Transaction, run_registry}
use ocn_registry_v.Contract.Owners.{validate_registration-HasOwners}
use ocn_registry_v.Tests.Contract.{
  sign_node, sign_deletion, one, two, outside, role_of, one_accepted, two_accepted,
}

abbrev de : Text
de = codes "0x4445"

abbrev fr : Text
fr = codes "0x4652"

abbrev abc : Text
abc = codes "0x414243"

-- A party of DE, under an operator that has a node.
abbrev before : State
before = record deployed {
  node_of = λ a. codes "https://ocn.org";
  unique_parties = λ country_code party_id. if country_code == de then one else zero_address;
}

replaced_code_example :
    (t : State) × ((transact outside one (party_set fr abc (role_of one) two [] []) before ≡ done t)
      × ((get_party_details_by_ocpi outside de abc t).party_address ≡ one)
      × ((get_party_details_by_ocpi outside de abc t).country_code ≡ fr)
      × ((get_party_details_by_ocpi outside de abc t).party_id ≡ abc)
      × (transact outside one party_deleted t ≡ done (without_party one t))
      × ((get_party_details_by_ocpi outside de abc (without_party one t)).party_address ≡ one)
      × (transact outside two (party_set de abc (role_of two) one de fr) (without_party one t)
          ≡ failed other_owner))
unfolding numbers_eq nat_eq
replaced_code_example =
    replaced_code outside outside one one two two de abc fr abc (role_of one) (role_of two) (1 ∷ [])
      (1 ∷ []) two [] [] one de fr before refl refl refl refl refl refl refl one_accepted
      two_accepted refl

-- Certificates of one owner.
abbrev sole_owner : Text → Text → Outcome Verified
sole_owner c sig = done (record { verifier = two; identifier = c; owner = one })

abbrev sole_certificates : Certificates
sole_certificates = record {
  verify_emp = sole_owner;
  verify_cpo = sole_owner;
  verify_other = sole_owner;
  is_allowed_verifier = λ v. true;
  role_oracle = λ role. none;
  show_role = λ role. [];
}

abbrev sole_outside : Outside
sole_outside = record outside { validate_registration = validate_registration sole_certificates }

abbrev past : List Transaction
past =
    (sole_outside, two, public_call (node_set (codes "https://ocn.org")))
    ∷ (sole_outside, one, public_call (party_set de abc (role_of one) two [] []))
    ∷ (sole_outside, account 3, validator_set (account 7))
    ∷ []

abbrev found : State
found = (run_registry some_roles past (new_registry some_roles (account 3) [] (account 9))).listings

abbrev country_of : Text → Text
country_of a = (found.party_of a).country_code

abbrev id_of : Text → Text
id_of a = (found.party_of a).party_id

owner_is_real :
    (v : Verified) (c : Text) → sole_owner c [] ≡ done v → (v.owner == zero_address) ≡ false
unfolding numbers_eq
owner_is_real v c e = ap (λ (x : Verified). x.owner == zero_address) (sym (done_inj _ v e))

verified_owner :
    (r : RoleDetails) (v : Verified)
    → IsVerified sole_certificates r v
    → (v.owner == zero_address) ≡ false
verified_owner r v (as_emsp role h) = owner_is_real v r.certificate_data h
verified_owner r v (as_cpo role h) = owner_is_real v r.certificate_data h
verified_owner r v (as_other emsp cpo h) = owner_is_real v r.certificate_data h

sole-HasOwners : HasOwners sole_outside
sole-HasOwners =
    validate_registration-HasOwners sole_certificates sole_outside (λ roles. refl) verified_owner

get_all_parties-ListsParties_example :
    (ps : List PartyDetails) × ((get_all_parties ethers decoder
          (network sole_outside one sign_node sign_deletion [] found)
          (wrapper (some one) true)
          []
        ≡ done ps)
      × ListsParties found country_of id_of ps)
unfolding run_own
get_all_parties-ListsParties_example =
    get_all_parties-ListsParties ethers decoder sole_outside one sign_node sign_deletion []
      (wrapper (some one) true) some_roles (account 3) (account 9) past [] country_of id_of
      (sole-HasOwners, (sole-HasOwners, (sole-HasOwners, tt))) sole-HasOwners (λ a r. (refl, refl))
