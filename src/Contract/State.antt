-- ===== src/Contract/State.antt =====
-- The state of contracts/OcnRegistry.sol. An address is its text with checksum, and a code is the
-- hexadecimal text of its bytes. A mapping is a function; where nothing was written it has the default.
use ocn_registry_v.Base.{◌≡◌, arith, ℕ, Bool, false, some, List, [], ◌∷◌, ◌==◌, Eq, if◌then◌else◌}
use ocn_registry_v.Text.{Text, codes}
use ocn_registry_v.Client.Failures.{plain, Failure, new_error}
use ocn_registry_v.Client.Types.{zero_address}

module _ {K V : Type 0} ⦃e : Eq K⦄ where
  -- `m[k] = v`
  unfoldable pub set : K → V → (K → V) → K → V
  set k v m j = if j == k then v else m j

  pub set_same : (k : K) (v : V) (m : K → V) → set k v m k ≡ v
  unfolding set
  set_same k v m = ground arith

  pub set_other : (k j : K) (v : V) (m : K → V) → (j == k) ≡ false → set k v m j ≡ m j
  unfolding set
  set_other k j v m h = ground (arith, h)

-- `PartyDetails`
pub record PartyRow : Type 0 where
  pub country_code : Text
  pub party_id : Text
  pub roles : List ℕ
  pub name : Text
  pub url : Text
  pub payment_status : ℕ
  pub cv_status : ℕ
  pub active : Bool
  pub party_index : ℕ

-- The events that the operations below emit.
pub data LogEntry : Type 0 where
  operator_updated : Text → Text → LogEntry
  -- the party's address, its details, and the operator
  party_updated : Text → PartyRow → Text → LogEntry
  party_deleted : Text → PartyRow → LogEntry

pub record State : Type 0 where
  pub node_of : Text → Text
  pub unique_domains : Text → Bool
  pub unique_operators : Text → Bool
  pub operators : List Text
  pub unique_parties : Text → Text → Text
  pub unique_party_addresses : Text → Bool
  pub party_of : Text → PartyRow
  pub operator_of : Text → Text
  pub parties : List Text
  pub log : List LogEntry

abbrev pub no_code : Text
no_code = codes "0x0000"

abbrev pub no_id : Text
no_id = codes "0x000000"

abbrev pub no_row : PartyRow
no_row = record {
  country_code = no_code;
  party_id = no_id;
  roles = [];
  name = [];
  url = [];
  payment_status = 0;
  cv_status = 0;
  active = false;
  party_index = 0;
}

-- The state that the constructor leaves.
abbrev pub deployed : State
deployed = record {
  node_of = λ a. [];
  unique_domains = λ d. false;
  unique_operators = λ a. false;
  operators = [];
  unique_parties = λ country_code party_id. zero_address;
  unique_party_addresses = λ a. false;
  party_of = λ a. no_row;
  operator_of = λ a. zero_address;
  parties = [];
  log = [];
}

-- `revert Name("reason")`, as ethers reports it.
abbrev pub reverted : Text → Text → Failure
reverted name reason = record (new_error (codes "execution reverted")) {
  revert = some (record { name = name; args = plain reason ∷ [] });
}
