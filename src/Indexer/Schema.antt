-- ===== src/Indexer/Schema.antt =====
-- The entities that the registry's handlers keep (thegraph-indexer/ocn-registry-oli/schema.graphql and
-- src/ocn-registry-oli.ts), the events that they read, and the store. An entity's `id` is its key.
use native.Mathlib.Decide.{ℕ_discrete}
use ocn_registry_v.Base.{ℕ, String, Bool, List, Eq, ◌==◌, nat_eq, if◌then◌else◌}
use ocn_registry_v.Base.Dict.{Dict}

abbrev pub Bytes : Type 0
Bytes = List ℕ

pub Bytes-discrete : Discrete Bytes
Bytes-discrete = hlevel ℕ_discrete

instance unfoldable pub bytes_eq : Eq Bytes
bytes_eq = record { dec = Bytes-discrete }

-- What the handlers use of @graphprotocol/graph-ts.
pub record Host : Type 0 where
  -- `Bytes.toHexString()`
  pub to_hex_string : Bytes → String
  -- `Bytes.toString()`
  pub to_text : Bytes → String
  -- `Bytes.concatI32(i)`
  pub concat_i32 : Bytes → ℕ → Bytes

-- What every event carries.
pub record Meta : Type 0 where
  pub transaction_hash : Bytes
  pub log_index : ℕ
  pub block_number : ℕ
  pub block_timestamp : ℕ

pub record OperatorUpdateEvent : Type 0 where
  pub meta : Meta
  pub operator : Bytes
  pub domain : String

pub record OwnershipTransferredEvent : Type 0 where
  pub meta : Meta
  pub old_admin : Bytes
  pub new_admin : Bytes

pub record PartyDeleteEvent : Type 0 where
  pub meta : Meta
  pub country_code : Bytes
  pub party_id : Bytes
  pub party_address : Bytes
  pub roles : List ℕ
  pub name : String
  pub url : String
  pub payment_status : ℕ
  pub cv_status : ℕ
  pub active : Bool

pub record PartyUpdateEvent : Type 0 where
  pub meta : Meta
  pub country_code : Bytes
  pub party_id : Bytes
  pub party_address : Bytes
  pub roles : List ℕ
  pub name : String
  pub url : String
  pub payment_status : ℕ
  pub cv_status : ℕ
  pub active : Bool
  pub operator_address : Bytes

pub record RoleAdminChangedEvent : Type 0 where
  pub meta : Meta
  pub role : Bytes
  pub previous_admin_role : Bytes
  pub new_admin_role : Bytes

-- `RoleGranted` and `RoleRevoked` have the same parameters.
pub record RoleEvent : Type 0 where
  pub meta : Meta
  pub role : Bytes
  pub account : Bytes
  pub sender : Bytes

-- Where an entity comes from.
pub record Origin : Type 0 where
  pub block_number : ℕ
  pub block_timestamp : ℕ
  pub transaction_hash : Bytes

pub record OperatorUpdate : Type 0 where
  pub operator : Bytes
  pub domain : String
  pub origin : Origin

pub record OwnershipTransferred : Type 0 where
  pub old_admin : Bytes
  pub new_admin : Bytes
  pub origin : Origin

-- The texts that `PartyDelete`, `PartyUpdate` and `Party` share.
pub record Listing : Type 0 where
  pub country_code : String
  pub party_id : String
  pub party_address : String
  pub roles : List String
  pub name : String
  pub url : String
  pub payment_status : String
  pub cv_status : String
  pub active : Bool

pub record PartyDelete : Type 0 where
  pub listing : Listing
  pub origin : Origin

pub record PartyUpdate : Type 0 where
  pub listing : Listing
  pub operator_address : Bytes
  pub origin : Origin

pub record RoleAdminChanged : Type 0 where
  pub role : Bytes
  pub previous_admin_role : Bytes
  pub new_admin_role : Bytes
  pub origin : Origin

pub record RoleChange : Type 0 where
  pub role : Bytes
  pub account : Bytes
  pub sender : Bytes
  pub origin : Origin

pub record Operator : Type 0 where
  pub domain : String

pub record Party : Type 0 where
  pub listing : Listing
  pub deleted : Bool
  pub operator : String

pub record Store : Type 0 where
  pub operator_updates : Dict Bytes OperatorUpdate
  pub ownership_transfers : Dict Bytes OwnershipTransferred
  pub party_deletes : Dict Bytes PartyDelete
  pub party_updates : Dict Bytes PartyUpdate
  pub role_admin_changes : Dict Bytes RoleAdminChanged
  pub roles_granted : Dict Bytes RoleChange
  pub roles_revoked : Dict Bytes RoleChange
  pub operators : Dict String Operator
  pub parties : Dict String Party

abbrev pub empty : Store
empty = record {
  operator_updates = List.[];
  ownership_transfers = List.[];
  party_deletes = List.[];
  party_updates = List.[];
  role_admin_changes = List.[];
  roles_granted = List.[];
  roles_revoked = List.[];
  operators = List.[];
  parties = List.[];
}

unfoldable pub get_payment_status : ℕ → String
get_payment_status status =
    if status == 0
    then "NOT_PAID"
    else if status == 1
    then "PAID"
    else if status == 2
    then "PENDING"
    else "UNKNOWN"

unfoldable pub get_cv_status : ℕ → String
get_cv_status status =
    if status == 0
    then "NOT_VERIFIED"
    else if status == 1
    then "VERIFIED"
    else if status == 2
    then "PENDING"
    else "UNKNOWN"

unfoldable pub get_role : ℕ → String
get_role role =
    if role == 0
    then "CPO"
    else if role == 1
    then "EMSP"
    else if role == 2
    then "NAP"
    else if role == 3
    then "NSP"
    else if role == 4
    then "OTHER"
    else if role == 5
    then "SCSP"
    else if role == 6
    then "HUB"
    else "UNKNOWN"
