-- ===== src/Contract/PartySteps.antt =====
-- What each operation of the registry contract may do to the parties.
use ocn_registry_v.Base.{
  ◌≡◌, refl, ℕ, Bool, true, false, not, ◌&&◌, List, ◌==◌, nat_eq, numbers_eq, if◌then◌else◌,
}
use ocn_registry_v.Base.Lists.{length}
use ocn_registry_v.Text.{Text}
use ocn_registry_v.Client.Failures.{Failure, is_full}
use ocn_registry_v.Client.Wrapper.{Outcome, done, failed, ◌>=>◌}
use ocn_registry_v.Client.Types.{
  Call, RoleDetails, node_set, node_set_raw, node_deleted, node_deleted_raw, party_set,
  party_deleted, zero_address,
}
use ocn_registry_v.Contract.State.{State, PartyRow, no_code, no_id}
use ocn_registry_v.Contract.Operations.{
  Outside, row_for, with_party, without_party, set_node_of, delete_node_of, set_party_of,
  register_party, delete_party_of, transact,
}
use ocn_registry_v.Contract.Leads.{Leads, reverts, steps, after_transaction_lem, if-Leads}
use ocn_registry_v.Contract.Run.{after_transaction}

-- Nothing, a registration, or a removal. A row that is written has the index of the party's earlier
-- row, or else that of the next entry.
pub data PartyStep (s : State) : State → Type 0 where
  registered :
      (owner operator : Text) (row : PartyRow)
      → (owner == zero_address) ≡ false
      → (operator == zero_address) ≡ false
      → row.party_index ≡ (
          if s.unique_party_addresses owner
          then (s.party_of owner).party_index
          else length s.parties)
      → PartyStep s (with_party owner row operator s)
  unregistered :
      (party : Text)
      → (s.operator_of party == zero_address) ≡ false
      → PartyStep s (without_party party s)
  unchanged :
      (t : State)
      → t.unique_party_addresses ≡ s.unique_party_addresses
      → t.party_of ≡ s.party_of
      → t.operator_of ≡ s.operator_of
      → t.parties ≡ s.parties
      → PartyStep s t

same_parties : (s : State) → PartyStep s s
same_parties s = unchanged s refl refl refl refl

-- The validator never gives the zero address as the owner of some roles.
abbrev pub HasOwners : Outside → Type 0
HasOwners O =
    (roles : List RoleDetails) (owner : Text) (found : List ℕ)
    → (length roles == 0) ≡ false
    → O.validate_registration roles ≡ done (owner, found)
    → (owner == zero_address) ≡ false

set_node_of-PartyStep :
    (operator domain : Text) (s : State) → Leads (PartyStep s) (set_node_of operator domain s)
unfolding set_node_of
set_node_of-PartyStep operator domain s =
    if-Leads (not (is_full domain)) _
      (if-Leads (s.unique_domains domain) _ (steps _ (unchanged _ refl refl refl refl)))

delete_node_of-PartyStep :
    (operator : Text) (s : State) → Leads (PartyStep s) (delete_node_of operator s)
unfolding delete_node_of
delete_node_of-PartyStep operator s =
    if-Leads (not (is_full (s.node_of operator))) _ (steps _ (unchanged _ refl refl refl refl))

-- A chain of refusals, in which what is left may use that the test failed.
pub unless-Leads :
    {P : State → Type 0} {o : Outcome State}
    → (b : Bool) (e : Failure) → (b ≡ false → Leads P o)
    → Leads P (if b then failed e else o)
unless-Leads true e h = reverts e
unless-Leads false e h = h refl

found-Leads :
    {P : State → Type 0} {A : Type 0}
    → (m : Outcome A) (f : A → Outcome State) → ((a : A) → m ≡ done a → Leads P (f a))
    → Leads P (m >=> f)
found-Leads (done a) f h = h a refl
found-Leads (failed e) f h = reverts e

module _ (O : Outside) (owners : HasOwners O) where
  register_party-PartyStep :
      (country_code party_id owner : Text) (found : List ℕ) (operator name url : Text) (s : State)
      → (owner == zero_address) ≡ false
      → (operator == zero_address) ≡ false
      → Leads (PartyStep s) (register_party O country_code party_id owner found operator name url s)
  unfolding register_party
  register_party-PartyStep country_code party_id owner found operator name url s real given =
      if-Leads
        (not (s.unique_parties country_code party_id == zero_address)
          && not (s.unique_parties country_code party_id == owner))
        _
        (if-Leads (not (is_full (s.node_of operator))) _ (
          steps _ (
            registered owner operator (row_for O country_code party_id owner found name url s) real
              given refl)))

  set_party_of-PartyStep :
      (country_code party_id : Text) (roles : List RoleDetails) (operator name url : Text)
      (s : State)
      → Leads (PartyStep s) (set_party_of O country_code party_id roles operator name url s)
  unfolding set_party_of
  set_party_of-PartyStep country_code party_id roles operator name url s =
      if-Leads (country_code == no_code) _ (
        if-Leads (party_id == no_id) _ (
          unless-Leads (length roles == 0) _ λ some_roles.
            (unless-Leads (operator == zero_address) _ λ given.
              found-Leads (O.validate_registration roles) _ λ found valid.
                register_party-PartyStep country_code party_id found.0 found.1 operator name url s
                  (owners roles found.0 found.1 some_roles valid) given)))

  delete_party_of-PartyStep :
      (party : Text) (s : State) → Leads (PartyStep s) (delete_party_of O party s)
  unfolding delete_party_of
  delete_party_of-PartyStep party s =
      unless-Leads (s.operator_of party == zero_address) _
        λ listed. steps _ (unregistered party listed)

  pub transact-PartyStep :
      (sender : Text) (c : Call) (s : State) → Leads (PartyStep s) (transact O sender c s)
  unfolding transact
  transact-PartyStep sender (node_set domain) s = set_node_of-PartyStep sender domain s
  transact-PartyStep sender (node_set_raw operator domain sig) s =
      set_node_of-PartyStep (O.recover_node operator domain sig) domain s
  transact-PartyStep sender node_deleted s = delete_node_of-PartyStep sender s
  transact-PartyStep sender (node_deleted_raw operator sig) s =
      delete_node_of-PartyStep (O.recover_deletion operator sig) s
  transact-PartyStep sender (party_set country_code party_id roles operator name url) s =
      set_party_of-PartyStep country_code party_id roles operator name url s
  transact-PartyStep sender party_deleted s = delete_party_of-PartyStep sender s

  pub after_transaction-PartyStep :
      (sender : Text) (c : Call) (s : State)
      → PartyStep s (after_transaction (transact O sender c s) s)
  after_transaction-PartyStep sender c s =
      after_transaction_lem (PartyStep s) s (transact O sender c s) (same_parties s)
        (transact-PartyStep sender c s)
