-- ===== src/Contract/Operations.antt =====
-- The functions of contracts/OcnRegistry.sol that change or read its listings. A call that reverts has
-- no state.
use ocn_registry_v.Base.{
  ℕ, true, false, not, ◌&&◌, List, [], ◌∷◌, ◌++◌, ◌==◌, nat_eq, numbers_eq, if◌then◌else◌, zero,
  suc,
}
use ocn_registry_v.Base.Lists.{length, keep, any}
use ocn_registry_v.Text.{Text, codes}
use ocn_registry_v.Client.Failures.{is_full}
use ocn_registry_v.Client.Wrapper.{Outcome, done, failed, ◌>=>◌}
use ocn_registry_v.Client.Types.{
  Signature, RoleDetails, RawParty, Call, node_set, node_set_raw, node_deleted, node_deleted_raw,
  party_set, party_deleted, zero_address,
}
use ocn_registry_v.Contract.State.{
  set, PartyRow, operator_updated, party_updated, party_deleted as party_deleted_entry, State,
  no_code, no_id, no_row, reverted,
}

-- The assignments of the private `setNode`, and of the private `deleteNode`.
abbrev pub with_node : Text → Text → State → State
with_node operator domain s = record s {
  unique_domains = set domain true s.unique_domains;
  operators = if s.unique_operators operator then s.operators else s.operators ++ operator ∷ [];
  unique_operators = set operator true s.unique_operators;
  node_of = set operator domain s.node_of;
  log = s.log ++ operator_updated operator domain ∷ [];
}

abbrev pub without_node : Text → State → State
without_node operator s = record s {
  unique_domains = set (s.node_of operator) false s.unique_domains;
  node_of = set operator [] s.node_of;
  log = s.log ++ operator_updated operator [] ∷ [];
}

-- The private `setNode`.
unfoldable pub set_node_of : Text → Text → State → Outcome State
set_node_of operator domain s =
    if not (is_full domain)
    then failed (
        reverted (codes "EmptyDomainName")
          (codes "Cannot set empty domain name. Use deleteNode method instead."))
    else if s.unique_domains domain
    then failed
        (reverted (codes "DomainNameAlreadyRegistered") (codes "Domain name already registered."))
    else done (with_node operator domain s)

-- The private `deleteNode`.
unfoldable pub delete_node_of : Text → State → Outcome State
delete_node_of operator s =
    if not (is_full (s.node_of operator))
    then failed
        (reverted (codes "EmptyDomainName") (codes "Cannot delete node that does not exist."))
    else done (without_node operator s)

-- What the contract asks of others in one transaction: the signer that `ecrecover` gives for a signed call, the validator,
-- and the payment manager.
pub record Outside : Type 0 where
  pub recover_node : Text → Text → Signature → Text
  pub recover_deletion : Text → Signature → Text
  pub validate_registration : List RoleDetails → Outcome (Text × List ℕ)
  pub get_payment_status : Text → ℕ

-- `delete parties[i]`: the entry becomes the zero address.
unfoldable pub blank : ℕ → List Text → List Text
blank i [] = []
blank zero (a ∷ parties) = zero_address ∷ parties
blank (suc i) (a ∷ parties) = a ∷ blank i parties

-- The assignments of `setParty`.
abbrev pub with_party : Text → PartyRow → Text → State → State
with_party owner row operator s = record s {
  unique_parties =
      set row.country_code (set row.party_id owner (s.unique_parties row.country_code))
        s.unique_parties;
  parties = if s.unique_party_addresses owner then s.parties else s.parties ++ owner ∷ [];
  unique_party_addresses = set owner true s.unique_party_addresses;
  party_of = set owner row s.party_of;
  operator_of = set owner operator s.operator_of;
  log = s.log ++ party_updated owner row operator ∷ [];
}

-- The assignments of the private `deleteParty`.
abbrev pub without_party : Text → State → State
without_party party s =
    let row = s.party_of party in
    record s {
      operator_of = set party zero_address s.operator_of;
      unique_parties =
          set row.country_code (set row.party_id zero_address (s.unique_parties row.country_code))
            s.unique_parties;
      party_of = set party no_row s.party_of;
      parties = blank row.party_index s.parties;
      unique_party_addresses = set party false s.unique_party_addresses;
      log = s.log ++ party_deleted_entry party row ∷ [];
    }

module _ (O : Outside) where
  -- The row that `setParty` builds.
  abbrev pub row_for : Text → Text → Text → List ℕ → Text → Text → State → PartyRow
  row_for country_code party_id owner roles name url s = record {
    country_code = country_code;
    party_id = party_id;
    roles = roles;
    name = name;
    url = url;
    payment_status = O.get_payment_status owner;
    cv_status = 0;
    active = true;
    party_index =
        if s.unique_party_addresses owner then (s.party_of owner).party_index else length s.parties;
  }

  -- From the check of the code on, with the owner and the roles that the validator found.
  unfoldable pub register_party :
      Text → Text → Text → List ℕ → Text → Text → Text → State → Outcome State
  register_party country_code party_id owner roles operator name url s =
      let registered = s.unique_parties country_code party_id in
      if not (registered == zero_address) && not (registered == owner)
      then failed (
          reverted (codes "PartyAlreadyRegistered")
            (codes "Party with country_code/party_id already registered under different address."))
      else if not (is_full (s.node_of operator))
      then failed
          (reverted (codes "PartyNotRegistered") (codes "Provided operator not registered."))
      else done (with_party owner (row_for country_code party_id owner roles name url s) operator s)

  unfoldable pub set_party_of :
      Text → Text → List RoleDetails → Text → Text → Text → State → Outcome State
  set_party_of country_code party_id roles operator name url s =
      if country_code == no_code
      then failed (
          reverted (codes "EmptyCountryCode")
            (codes "Cannot set empty country_code. Use deleteParty method instead."))
      else if party_id == no_id
      then failed (
          reverted (codes "EmptyPartyId")
            (codes "Cannot set empty party_id. Use deleteParty method instead."))
      else if length roles == 0
      then failed (reverted (codes "NoRolesProvided") (codes "No roles provided."))
      else if operator == zero_address
      then failed (
          reverted (codes "EmptyOperator")
            (codes "Cannot set empty operator. Use deleteParty method instead."))
      else O.validate_registration roles >=> λ found.
          register_party country_code party_id found.0 found.1 operator name url s

  -- The private `deleteParty`.
  unfoldable pub delete_party_of : Text → State → Outcome State
  delete_party_of party s =
      if s.operator_of party == zero_address
      then failed (
          reverted (codes "PartyNotRegistered")
            (codes "Cannot delete party that does not exist. No operator found for given party."))
      else done (without_party party s)

  -- The public functions that the client library calls, by the sender of the transaction.
  unfoldable pub transact : Text → Call → State → Outcome State
  transact sender (node_set domain) s = set_node_of sender domain s
  transact sender (node_set_raw operator domain sig) s =
      set_node_of (O.recover_node operator domain sig) domain s
  transact sender node_deleted s = delete_node_of sender s
  transact sender (node_deleted_raw operator sig) s =
      delete_node_of (O.recover_deletion operator sig) s
  transact sender (party_set country_code party_id roles operator name url) s =
      set_party_of country_code party_id roles operator name url s
  transact sender party_deleted s = delete_party_of sender s

unfoldable pub get_party_details_by_address : Text → State → RawParty
get_party_details_by_address address s =
    let row = s.party_of address in
    record {
      party_address = address;
      country_code = row.country_code;
      party_id = row.party_id;
      roles = row.roles;
      payment_status = row.payment_status;
      operator_address = s.operator_of address;
      name = row.name;
      url = row.url;
      active = row.active;
    }

unfoldable pub get_party_details_by_ocpi : Outside → Text → Text → State → RawParty
get_party_details_by_ocpi O country_code party_id s =
    let address = s.unique_parties country_code party_id in
    record (get_party_details_by_address address s) {
      payment_status = O.get_payment_status address;
    }

unfoldable pub get_parties_by_operator : Text → State → List Text
get_parties_by_operator operator s = keep (λ p. s.operator_of p == operator) s.parties

unfoldable pub get_parties_by_role : ℕ → State → List Text
get_parties_by_role role s = keep (λ p. any (λ r. r == role) (s.party_of p).roles) s.parties
