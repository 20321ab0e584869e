-- ===== src/Contract/Parties.antt =====
-- What the registry contract keeps of a party that changes its code.
use ocn_registry_v.Base.{
  ◌≡◌, refl, ap, ◌∙◌, arith, ℕ, Bool, true, false, not, ◌&&◌, ◌||◌, List, ◌==◌, numbers_eq, nat_eq,
}
use ocn_registry_v.Base.Lists.{length}
use ocn_registry_v.Text.{Text, codes}
use ocn_registry_v.Client.Failures.{Failure, is_full}
use ocn_registry_v.Client.Wrapper.{done, failed}
use ocn_registry_v.Client.Types.{RoleDetails, party_set, party_deleted, zero_address}
use ocn_registry_v.Contract.State.{State, PartyRow, set, set_same, reverted, no_code, no_id}
use ocn_registry_v.Contract.Operations.{
  Outside, row_for, with_party, without_party, register_party, set_party_of, delete_party_of,
  transact, get_party_details_by_ocpi, get_party_details_by_address,
}

abbrev pub other_owner : Failure
other_owner =
    reverted (codes "PartyAlreadyRegistered")
      (codes "Party with country_code/party_id already registered under different address.")

is_own : (a b : Bool) → (a || b) ≡ true → (not a && not b) ≡ false
is_own a b h = ground (arith, h)

open_if_free : (a owner : Text) → a ≡ zero_address → (a == zero_address || a == owner) ≡ true
unfolding numbers_eq
open_if_free a owner free = rw free refl

last_filled : (a b c d : Bool) → (not a && not b && not c && not d) ≡ true → d ≡ false
last_filled a b c d h = ground (arith, h)

set_pair_other :
    (a b c d v : Text) (m : Text → Text → Text)
    → (c == a && d == b) ≡ false
    → set a (set b v (m a)) m c d ≡ m c d
unfolding set
set_pair_other a b c d v m differ = ground (arith, differ)

without_party-unique_parties :
    (owner country_code party_id : Text) (row : PartyRow) (t : State)
    → t.party_of owner ≡ row
    → (country_code == row.country_code && party_id == row.party_id) ≡ false
    → (without_party owner t).unique_parties country_code party_id
      ≡ t.unique_parties country_code party_id
without_party-unique_parties owner country_code party_id row t is differ =
    set_pair_other (t.party_of owner).country_code (t.party_of owner).party_id country_code party_id
      zero_address t.unique_parties (rw is differ)

-- The tests that the contract makes before it asks the validator.
abbrev pub is_filled : Text → Text → List RoleDetails → Text → Bool
is_filled country_code party_id roles operator =
    not (country_code == no_code)
    && not (party_id == no_id)
    && not (length roles == 0)
    && not (operator == zero_address)

module _ (O : Outside) where
  set_party_of_validated :
      (country_code party_id : Text) (roles : List RoleDetails) (operator name url owner : Text)
      (found : List ℕ) (s : State)
      → is_filled country_code party_id roles operator ≡ true
      → O.validate_registration roles ≡ done (owner, found)
      → set_party_of O country_code party_id roles operator name url s
        ≡ register_party O country_code party_id owner found operator name url s
  unfolding set_party_of
  set_party_of_validated country_code party_id roles operator name url owner found s filled valid =
      ground (arith, filled, valid)

  register_party_done :
      (country_code party_id owner : Text) (found : List ℕ) (operator name url : Text) (s : State)
      → (s.unique_parties country_code party_id == zero_address
          || s.unique_parties country_code party_id == owner)
        ≡ true
      → is_full (s.node_of operator) ≡ true
      → register_party O country_code party_id owner found operator name url s
        ≡ done
            (with_party owner (row_for O country_code party_id owner found name url s) operator s)
  unfolding register_party
  register_party_done country_code party_id owner found operator name url s open_code node =
      rw (is_own _ _ open_code, node) refl

  register_party_refused :
      (country_code party_id owner : Text) (found : List ℕ) (operator name url : Text) (s : State)
      → (s.unique_parties country_code party_id == zero_address) ≡ false
      → (s.unique_parties country_code party_id == owner) ≡ false
      → register_party O country_code party_id owner found operator name url s ≡ failed other_owner
  unfolding register_party
  register_party_refused country_code party_id owner found operator name url s used other =
      rw (used, other) refl

  delete_party_of_done :
      (party : Text) (s : State)
      → (s.operator_of party == zero_address) ≡ false
      → delete_party_of O party s ≡ done (without_party party s)
  unfolding delete_party_of
  delete_party_of_done party s listed = rw listed refl

module _ (O later : Outside) where
  -- Suppose a party has a code, and its owner sends `setParty` with another code that is free, with roles that
  -- the validator accepts for the same owner, and with an operator that has a node. Then the
  -- contract takes the transaction, and looking the old code up still finds the party, whose details say the new
  -- code. Once the owner deletes the party, looking the old code up still gives the owner's address, and `setParty`
  -- for the old code is refused, whatever the operator, the name and the url, where the tests on the arguments pass and
  -- the validator, whatever has changed about it, accepts the roles for another owner.
  pub replaced_code :
      (owner sender caller other country_code party_id new_country_code new_party_id : Text)
      (roles others : List RoleDetails) (found others_found : List ℕ) (operator name url : Text)
      (other_operator other_name other_url : Text) (s : State)
      → s.unique_parties country_code party_id ≡ owner
      → s.unique_parties new_country_code new_party_id ≡ zero_address
      → (country_code == new_country_code && party_id == new_party_id) ≡ false
      → (owner == zero_address) ≡ false
      → (owner == other) ≡ false
      → is_filled new_country_code new_party_id roles operator ≡ true
      → is_filled country_code party_id others other_operator ≡ true
      → O.validate_registration roles ≡ done (owner, found)
      → later.validate_registration others ≡ done (other, others_found)
      → is_full (s.node_of operator) ≡ true
      → (t : State) × ((transact O sender
              (party_set new_country_code new_party_id roles operator name url)
              s
            ≡ done t)
          × ((get_party_details_by_ocpi O country_code party_id t).party_address ≡ owner)
          × ((get_party_details_by_ocpi O country_code party_id t).country_code ≡ new_country_code)
          × ((get_party_details_by_ocpi O country_code party_id t).party_id ≡ new_party_id)
          × (transact O owner party_deleted t ≡ done (without_party owner t))
          × ((get_party_details_by_ocpi O country_code party_id
                (without_party owner t)).party_address
              ≡ owner)
          × (transact later caller
                (party_set country_code party_id others other_operator other_name other_url)
                (without_party owner t)
              ≡ failed other_owner))
  unfolding transact get_party_details_by_ocpi get_party_details_by_address
  replaced_code owner sender caller other country_code party_id new_country_code new_party_id roles
        others found others_found operator name url other_operator other_name other_url s has free
        differ real apart filled filled_other valid valid_other node =
      let row = row_for O new_country_code new_party_id owner found name url s in
      let t = with_party owner row operator s in
      let kept : t.unique_parties country_code party_id ≡ owner =
        set_pair_other new_country_code new_party_id country_code party_id owner s.unique_parties
          differ
        ∙ has in
      let row_found : t.party_of owner ≡ row = set_same owner row s.party_of in
      let operator_found : t.operator_of owner ≡ operator = set_same owner operator s.operator_of in
      let still : (without_party owner t).unique_parties country_code party_id ≡ owner =
        without_party-unique_parties owner country_code party_id row t row_found differ ∙ kept in
      (
        t,
        (
          set_party_of_validated O new_country_code new_party_id roles operator name url owner found
                s filled valid
              ∙ register_party_done O new_country_code new_party_id owner found operator name url s
                  (open_if_free _ owner free) node,
          kept,
          ap (λ a. (t.party_of a).country_code) kept
              ∙ ap (λ (r : PartyRow). r.country_code) row_found,
          ap (λ a. (t.party_of a).party_id) kept ∙ ap (λ (r : PartyRow). r.party_id) row_found,
          delete_party_of_done O owner t (rw operator_found (last_filled _ _ _ _ filled)),
          still,
          set_party_of_validated later country_code party_id others other_operator other_name
                other_url other others_found (without_party owner t) filled_other valid_other
              ∙ register_party_refused later country_code party_id other others_found other_operator
                  other_name other_url (without_party owner t) (rw still real) (rw still apart),
        ),
      )
