-- ===== src/Client/Types.antt =====
-- The data of the registry client (src/lib/types.ts), and the contract that it talks to.
use ocn_registry_v.Base.{ℕ, Bool, Option, none, some, List, ◌==◌, nat_eq, if◌then◌else◌}
use ocn_registry_v.Text.{Text, codes}
use ocn_registry_v.Client.Wrapper.{Outcome}

pub record Signature : Type 0 where
  pub v : ℕ
  pub r : Text
  pub s : Text

pub record RoleDetails : Type 0 where
  pub certificate_data : Text
  pub signature : Text
  pub role : ℕ

-- The transactions that the library sends.
pub data Call : Type 0 where
  node_set : Text → Call
  node_set_raw : Text → Text → Signature → Call
  node_deleted : Call
  node_deleted_raw : Text → Signature → Call
  party_set : Text → Text → List RoleDetails → Text → Text → Text → Call
  party_deleted : Call

-- A party as the contract returns it, in the order of the tuple.
pub record RawParty : Type 0 where
  pub party_address : Text
  pub country_code : Text
  pub party_id : Text
  pub roles : List ℕ
  pub payment_status : ℕ
  pub operator_address : Text
  pub name : Text
  pub url : Text
  pub active : Bool

pub data Role : Type 0 where
  cpo emsp nap nsp other scsp hub : Role

pub record PartyDetails : Type 0 where
  pub party_address : Text
  pub country_code : Text
  pub party_id : Text
  pub roles : List (Option Role)
  pub payment_status : ℕ
  pub operator_address : Text
  pub name : Text
  pub url : Text
  pub active : Bool

pub record Node : Type 0 where
  pub operator : Text
  pub url : Text

-- The contract on its network, and the wallets' signatures. What a call answers depends on the
-- transactions that were sent before, the last one last.
pub record Network : Type 0 where
  pub get_node : List Call → Text → Outcome Text
  pub get_node_operators : List Call → Outcome (List Text)
  pub get_party_details_by_address : List Call → Text → Outcome RawParty
  pub get_party_details_by_ocpi : List Call → Text → Text → Outcome RawParty
  pub get_parties : List Call → Outcome (List Text)
  pub payment_manager : List Call → Outcome Text
  -- whether the network takes the transaction
  pub accept : List Call → Call → Outcome (Unit {0})
  -- `tx.wait()`
  pub wait : List Call → Call → Outcome (Unit {0})
  -- the signature of the hash of an address and a domain, by the key of the address
  pub sign_node : Text → Text → Signature
  pub sign_deletion : Text → Signature

abbrev pub zero_address : Text
zero_address = codes "0x0000000000000000000000000000000000000000"

-- `types.Role[index]`
abbrev pub role_at : ℕ → Option Role
role_at n =
    if n == 0
    then some cpo
    else if n == 1
    then some emsp
    else if n == 2
    then some nap
    else if n == 3
    then some nsp
    else if n == 4
    then some other
    else if n == 5
    then some scsp
    else if n == 6
    then some hub
    else none
