-- ===== src/Staking/State.antt =====
-- The state of contracts/OcnPaymentManager.sol, with the token and the roles that it uses. An address
-- is its text with checksum, and a mapping is a function.
use ocn_registry_v.Base.{
  ◌≡◌, ℕ, ◌+◌, Bool, true, false, List, [], ◌==◌, numbers_eq, if◌then◌else◌, leb,
}
use ocn_registry_v.Text.{Text, codes}
pub use ocn_registry_v.Contract.Access.{
  Roles, default_admin_role, thrown, thrown_string, unauthorized, require,
}
use ocn_registry_v.Client.Wrapper.{Outcome, done, failed}
use ocn_registry_v.Client.Types.{zero_address}

-- The tokens on the chain (IERC20 of OpenZeppelin). A call names the token first; those that change
-- something name the caller next. The laws are those of transfers that report success.
pub record Tokens : Type 1 where
  pub Money : Type 0
  pub balance : Text → Text → Money → ℕ
  pub allowance : Text → Text → Text → Money → ℕ
  pub transfer_from : Text → Text → Text → Text → ℕ → Money → Outcome (Bool × Money)
  pub transfer : Text → Text → Text → ℕ → Money → Outcome (Bool × Money)
  pub transferred_from :
      (token caller sender receiver : Text) (amount : ℕ) (t u : Money)
      → (sender == receiver) ≡ false
      → transfer_from token caller sender receiver amount t ≡ done (true, u)
      → balance token receiver u ≡ balance token receiver t + amount
  pub transferred :
      (token caller receiver : Text) (amount : ℕ) (t u : Money)
      → transfer token caller receiver amount t ≡ done (true, u)
      → balance token caller u + (if caller == receiver then 0 else amount) ≡ balance token caller t

pub data LogEntry : Type 0 where
  -- by whom, for which party, and how much
  party_staked : Text → Text → ℕ → LogEntry
  stake_withdrawn : Text → ℕ → LogEntry
  ownership_transferred_entry : Text → Text → LogEntry

pub record Manager (H : Type 0) : Type 0 where
  pub upgrader_role : Text
  pub version : ℕ
  pub current_base_contract : Text
  pub funding_yearly_amount : ℕ
  pub euro_stablecoin : Text
  pub operator_address : Text
  pub staking_period_in_blocks : ℕ
  pub staking_block : Text → ℕ
  pub staked_funds : Text → ℕ
  pub roles : H
  pub log : List LogEntry

-- The contract with the tokens around it.
pub record World (H M : Type 0) : Type 0 where
  pub manager : Manager H
  pub money : M

-- keccak256("UPGRADER_ROLE")
abbrev pub upgrader : Text
upgrader = codes "0x189ab7a9244df0848122154315af71fe140f3db0fe014031783b0946b8c9d2e3"

-- What the storage holds before `initialize`.
abbrev pub blank_manager : {H : Type 0} → H → Manager H
blank_manager held = record {
  upgrader_role = default_admin_role;
  version = 0;
  current_base_contract = zero_address;
  funding_yearly_amount = 0;
  euro_stablecoin = zero_address;
  operator_address = zero_address;
  staking_period_in_blocks = 0;
  staking_block = λ party. 0;
  staked_funds = λ party. 0;
  roles = held;
  log = [];
}

abbrev pub word : ℕ
word = 115792089237316195423570985008687907853269984665640564039457584007913129639936

-- The result of checked arithmetic on uint256.
unfoldable pub checked : ℕ → Outcome ℕ
checked n = if leb word n then failed (thrown (codes "Panic")) else done n
