-- ===== src/Contract/Steps.antt =====
-- What each operation of the registry contract may do to the nodes.
use ocn_registry_v.Base.{
  ◌≡◌, refl, ℕ, true, false, not, ◌&&◌, List, ◌==◌, numbers_eq, nat_eq, Bool-cases, inl, inr,
}
use ocn_registry_v.Text.{Text}
use ocn_registry_v.Client.Failures.{is_full}
use ocn_registry_v.Client.Wrapper.{Outcome}
use ocn_registry_v.Client.Types.{
  Call, RoleDetails, node_set, node_set_raw, node_deleted, node_deleted_raw, party_set,
  party_deleted, zero_address,
}
use ocn_registry_v.Base.Lists.{length}
use ocn_registry_v.Contract.State.{State, no_code, no_id}
use ocn_registry_v.Contract.Operations.{
  Outside, with_node, without_node, set_node_of, delete_node_of, set_party_of, register_party,
  delete_party_of, transact,
}
use ocn_registry_v.Contract.Leads.{
  Leads, reverts, steps, after_transaction_lem, if-Leads, bind-Leads,
}
use ocn_registry_v.Contract.Run.{after_transaction}

-- What the operations may do to the nodes: nothing, a new domain that is free, or a removal.
pub data NodeStep (s : State) : State → Type 0 where
  placed :
      (operator domain : Text)
      → is_full domain ≡ true
      → s.unique_domains domain ≡ false
      → NodeStep s (with_node operator domain s)
  removed :
      (operator : Text) → is_full (s.node_of operator) ≡ true → NodeStep s (without_node operator s)
  kept :
      (t : State)
      → t.node_of ≡ s.node_of
      → t.unique_domains ≡ s.unique_domains
      → t.unique_operators ≡ s.unique_operators
      → t.operators ≡ s.operators
      → NodeStep s t

same_nodes : (s : State) → NodeStep s s
same_nodes s = kept s refl refl refl refl

after_transaction-NodeStep :
    (s : State) (o : Outcome State) → Leads (NodeStep s) o → NodeStep s (after_transaction o s)
after_transaction-NodeStep s o h = after_transaction_lem (NodeStep s) s o (same_nodes s) h

set_node_of-Leads :
    (operator domain : Text) (s : State) → Leads (NodeStep s) (set_node_of operator domain s)
unfolding set_node_of
set_node_of-Leads operator domain s = elim (Bool-cases (is_full domain)) [
  | inr empty ↦ rw (empty) (reverts _)
  | inl full ↦ elim (Bool-cases (s.unique_domains domain)) [
    | inl taken ↦ rw (full, taken) (reverts _)
    | inr free ↦ rw (full, free) (steps _ (placed operator domain full free))
  ]
]

pub delete_node_of-Leads :
    (operator : Text) (s : State) → Leads (NodeStep s) (delete_node_of operator s)
unfolding delete_node_of
delete_node_of-Leads operator s = elim (Bool-cases (is_full (s.node_of operator))) [
  | inr empty ↦ rw (empty) (reverts _)
  | inl full ↦ rw (full) (steps _ (removed operator full))
]

module _ (O : Outside) where
  register_party-Leads :
      (country_code party_id owner : Text) (roles : List ℕ) (operator name url : Text) (s : State)
      → Leads (NodeStep s) (register_party O country_code party_id owner roles operator name url s)
  unfolding register_party
  register_party-Leads country_code party_id owner roles operator name url s =
      if-Leads
        (not (s.unique_parties country_code party_id == zero_address)
          && not (s.unique_parties country_code party_id == owner))
        _ (if-Leads (not (is_full (s.node_of operator))) _ (steps _ (kept _ refl refl refl refl)))

  set_party_of-Leads :
      (country_code party_id : Text) (roles : List RoleDetails) (operator name url : Text)
      (s : State)
      → Leads (NodeStep s) (set_party_of O country_code party_id roles operator name url s)
  unfolding set_party_of
  set_party_of-Leads country_code party_id roles operator name url s =
      if-Leads (country_code == no_code) _ (
        if-Leads (party_id == no_id) _ (
          if-Leads (length roles == 0) _ (
            if-Leads (operator == zero_address) _ (
              bind-Leads (O.validate_registration roles) _ λ found.
                register_party-Leads country_code party_id found.0 found.1 operator name url s))))

  pub delete_party_of-Leads :
      (party : Text) (s : State) → Leads (NodeStep s) (delete_party_of O party s)
  unfolding delete_party_of
  delete_party_of-Leads party s =
      if-Leads (s.operator_of party == zero_address) _ (steps _ (kept _ refl refl refl refl))

  pub transact-Leads :
      (sender : Text) (c : Call) (s : State) → Leads (NodeStep s) (transact O sender c s)
  unfolding transact
  transact-Leads sender (node_set domain) s = set_node_of-Leads sender domain s
  transact-Leads sender (node_set_raw operator domain sig) s =
      set_node_of-Leads (O.recover_node operator domain sig) domain s
  transact-Leads sender node_deleted s = delete_node_of-Leads sender s
  transact-Leads sender (node_deleted_raw operator sig) s =
      delete_node_of-Leads (O.recover_deletion operator sig) s
  transact-Leads sender (party_set country_code party_id roles operator name url) s =
      set_party_of-Leads country_code party_id roles operator name url s
  transact-Leads sender party_deleted s = delete_party_of-Leads sender s

  pub transact-NodeStep :
      (sender : Text) (c : Call) (s : State)
      → NodeStep s (after_transaction (transact O sender c s) s)
  transact-NodeStep sender c s =
      after_transaction-NodeStep s (transact O sender c s) (transact-Leads sender c s)
