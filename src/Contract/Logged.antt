-- ===== src/Contract/Logged.antt =====
-- The events of the registry contract tell its nodes: what the log of contracts/OcnRegistry.sol says.
use ocn_registry_v.Base.{
  ◌≡◌, refl, arith, ℕ, Bool, true, false, not, ◌&&◌, ◌||◌, Option, none, some, or_else, List, [],
  ◌∷◌, ◌++◌, ◌==◌, numbers_eq, nat_eq, if◌then◌else◌,
}
use ocn_registry_v.Base.Lists.{length}
use ocn_registry_v.Text.{Text}
use ocn_registry_v.Client.Failures.{is_full}
use ocn_registry_v.Client.Types.{
  Call, RoleDetails, node_set, node_set_raw, node_deleted, node_deleted_raw, party_set,
  party_deleted as party_deletion, zero_address,
}
use ocn_registry_v.Contract.Access.{Roles}
use ocn_registry_v.Contract.Administered.{Transaction, run_registry, registry_induction}
use ocn_registry_v.Contract.Administration.{new_registry}
use ocn_registry_v.Contract.History.{deployed-IsConsistent, kept-IsConsistent}
use ocn_registry_v.Contract.Leads.{Leads, steps, if-Leads, bind-Leads}
use ocn_registry_v.Contract.Nodes.{IsConsistent, with_node-IsConsistent, without_node-IsConsistent}
use ocn_registry_v.Contract.Operations.{
  Outside, row_for, with_node, without_node, with_party, without_party, set_node_of, delete_node_of,
  register_party, set_party_of, delete_party_of, transact,
}
use ocn_registry_v.Contract.PartySteps.{unless-Leads}
use ocn_registry_v.Contract.State.{
  set, PartyRow, LogEntry, operator_updated, party_updated, party_deleted, State, no_code, no_id,
}

-- The domain that an event gives an operator, and whether it is the one of a party that is registered.
abbrev pub node_in : Text → LogEntry → Option Text
node_in a (operator_updated operator domain) = if a == operator then some domain else none
node_in a _ = none

abbrev pub serves : Text → LogEntry → Bool
serves a (party_updated owner row operator) = a == operator
serves a _ = false

unfoldable pub last_node : Text → List LogEntry → Option Text
last_node a [] = none
last_node a (x ∷ log) = or_else (last_node a log) (node_in a x)

unfoldable pub is_served : Text → List LogEntry → Bool
is_served a [] = false
is_served a (x ∷ log) = serves a x || is_served a log

last_node-append :
    (a : Text) (x : LogEntry) (log : List LogEntry)
    → last_node a (log ++ x ∷ []) ≡ or_else (node_in a x) (last_node a log)
unfolding last_node
last_node-append a x [] = ground arith
last_node-append a x (y ∷ log) = ground (arith, last_node-append a x log)

is_served-append :
    (a : Text) (x : LogEntry) (log : List LogEntry)
    → is_served a (log ++ x ∷ []) ≡ (is_served a log || serves a x)
unfolding is_served
is_served-append a x [] = ground arith
is_served-append a x (y ∷ log) = ground (arith, is_served-append a x log)

-- The node that an operator has, empty if it was deleted, or nothing if it never had one.
abbrev pub node_if_listed : State → Text → Option Text
node_if_listed s a = if s.unique_operators a then some (s.node_of a) else none

-- The log says which operators are listed and what nodes they have, and parties are served by
-- listed operators.
pub record IsLogged (s : State) : Type 0 where
  consistent : IsConsistent s
  pub told : (a : Text) → last_node a s.log ≡ node_if_listed s a
  pub serving : (a : Text) → is_served a s.log ≡ true → s.unique_operators a ≡ true

module _ (s : State) (h : IsLogged s) where
  placed-IsLogged :
      (operator domain : Text)
      → s.unique_domains domain ≡ false
      → IsLogged (with_node operator domain s)
  unfolding set
  placed-IsLogged operator domain free = record {
    consistent = with_node-IsConsistent operator domain s h.consistent free;
    told =
        λ a. ground (arith, h.told a, last_node-append a (operator_updated operator domain) s.log);
    serving = λ a served.
        ground
          (arith, h.serving a, is_served-append a (operator_updated operator domain) s.log, served);
  }

  removed-IsLogged :
      (operator : Text) → is_full (s.node_of operator) ≡ true → IsLogged (without_node operator s)
  unfolding set
  removed-IsLogged operator full = record {
    consistent = without_node-IsConsistent operator s h.consistent full;
    told = λ a. ground (
      arith,
      h.told a,
      h.consistent.listed operator full,
      last_node-append a (operator_updated operator []) s.log,
    );
    serving = λ a served.
        ground
          (arith, h.serving a, is_served-append a (operator_updated operator []) s.log, served);
  }

  registered-IsLogged :
      (owner operator : Text) (row : PartyRow)
      → is_full (s.node_of operator) ≡ true
      → IsLogged (with_party owner row operator s)
  registered-IsLogged owner operator row full = record {
    consistent = kept-IsConsistent s _ refl refl refl refl h.consistent;
    told =
        λ a. ground (arith, h.told a, last_node-append a (party_updated owner row operator) s.log);
    serving = λ a served. ground (
      arith,
      h.serving a,
      h.consistent.listed operator full,
      is_served-append a (party_updated owner row operator) s.log,
      served,
    );
  }

  unregistered-IsLogged : (party : Text) → IsLogged (without_party party s)
  unregistered-IsLogged party = record {
    consistent = kept-IsConsistent s _ refl refl refl refl h.consistent;
    told = λ a.
        ground (arith, h.told a, last_node-append a (party_deleted party (s.party_of party)) s.log);
    serving = λ a served. ground (
      arith,
      h.serving a,
      is_served-append a (party_deleted party (s.party_of party)) s.log,
      served,
    );
  }

set_node_of-IsLogged :
    (operator domain : Text) (s : State)
    → IsLogged s
    → Leads IsLogged (set_node_of operator domain s)
unfolding set_node_of
set_node_of-IsLogged operator domain s h = if-Leads (not (is_full domain)) _ (
    unless-Leads (s.unique_domains domain) _
      λ free. steps _ (placed-IsLogged s h operator domain free))

is_there : (b : Bool) → not b ≡ false → b ≡ true
is_there b h = ground (arith, h)

delete_node_of-IsLogged :
    (operator : Text) (s : State) → IsLogged s → Leads IsLogged (delete_node_of operator s)
unfolding delete_node_of
delete_node_of-IsLogged operator s h =
    unless-Leads (not (is_full (s.node_of operator))) _
      λ there. steps _ (removed-IsLogged s h operator (is_there _ there))

module _ (O : Outside) where
  register_party-IsLogged :
      (country_code party_id owner : Text) (roles : List ℕ) (operator name url : Text) (s : State)
      → IsLogged s
      → Leads IsLogged (register_party O country_code party_id owner roles operator name url s)
  unfolding register_party
  register_party-IsLogged country_code party_id owner roles operator name url s h =
      if-Leads
        (not (s.unique_parties country_code party_id == zero_address)
          && not (s.unique_parties country_code party_id == owner))
        _
        (unless-Leads (not (is_full (s.node_of operator))) _ λ there. steps _ (
          registered-IsLogged s h owner operator
            (row_for O country_code party_id owner roles name url s) (is_there _ there)))

  set_party_of-IsLogged :
      (country_code party_id : Text) (roles : List RoleDetails) (operator name url : Text)
      (s : State)
      → IsLogged s
      → Leads IsLogged (set_party_of O country_code party_id roles operator name url s)
  unfolding set_party_of
  set_party_of-IsLogged country_code party_id roles operator name url s h =
      if-Leads (country_code == no_code) _ (
        if-Leads (party_id == no_id) _ (
          if-Leads (length roles == 0) _ (
            if-Leads (operator == zero_address) _ (
              bind-Leads (O.validate_registration roles) _ λ found.
                register_party-IsLogged country_code party_id found.0 found.1 operator name url s
                  h))))

  delete_party_of-IsLogged :
      (party : Text) (s : State) → IsLogged s → Leads IsLogged (delete_party_of O party s)
  unfolding delete_party_of
  delete_party_of-IsLogged party s h =
      if-Leads (s.operator_of party == zero_address) _ (steps _ (unregistered-IsLogged s h party))

  transact-IsLogged :
      (sender : Text) (c : Call) (s : State) → IsLogged s → Leads IsLogged (transact O sender c s)
  unfolding transact
  transact-IsLogged sender (node_set domain) s h = set_node_of-IsLogged sender domain s h
  transact-IsLogged sender (node_set_raw operator domain sig) s h =
      set_node_of-IsLogged (O.recover_node operator domain sig) domain s h
  transact-IsLogged sender node_deleted s h = delete_node_of-IsLogged sender s h
  transact-IsLogged sender (node_deleted_raw operator sig) s h =
      delete_node_of-IsLogged (O.recover_deletion operator sig) s h
  transact-IsLogged sender (party_set country_code party_id roles operator name url) s h =
      set_party_of-IsLogged country_code party_id roles operator name url s h
  transact-IsLogged sender party_deletion s h = delete_party_of-IsLogged sender s h

-- Whatever transactions are made after the deployment, the log tells the nodes.
pub run_registry-IsLogged :
    (R : Roles) (sender manager validator : Text) (calls : List Transaction)
    → IsLogged (run_registry R calls (new_registry R sender manager validator)).listings
unfolding last_node is_served
run_registry-IsLogged R sender manager validator calls =
    registry_induction R IsLogged transact-IsLogged calls (new_registry R sender manager validator)
      (record {
        consistent = deployed-IsConsistent;
        told = λ a. refl;
        serving = λ a served. absurd (cc served);
      })
