-- ===== src/Staking/Operations.antt =====
-- The functions of contracts/OcnPaymentManager.sol. A call that reverts has no state.
use ocn_registry_v.Base.{
  ℕ, ◌+◌, ◌*◌, not, [], ◌∷◌, ◌++◌, ◌==◌, nat_eq, numbers_eq, if◌then◌else◌, ltb, ◌/◌,
}
use ocn_registry_v.Text.{Text, codes}
use ocn_registry_v.Client.Wrapper.{Outcome, done, ◌>=>◌}
use ocn_registry_v.Client.Types.{zero_address}
use ocn_registry_v.Contract.State.{set}
use ocn_registry_v.Staking.State.{
  Tokens, Roles, party_staked, stake_withdrawn, ownership_transferred_entry, Manager, World,
  default_admin_role, upgrader, blank_manager, thrown, thrown_string, require, unauthorized,
  checked,
}

-- The calls that change the state, but for `initialize`, which the proxy makes when it is deployed,
-- and the upgrade, which replaces the code.
pub data Call : Type 0 where
  paid withdrawn : Text → Call
  operator_set stablecoin_set ownership_transferred : Text → Call
  yearly_amount_set : ℕ → Call

module _ (R : Roles) (T : Tokens) where
  -- The world of this contract.
  abbrev pub Staking : Type 0
  Staking = World R.Held T.Money

  -- The assignments of `initialize`.
  abbrev pub initialized : Text → Text → ℕ → Text → Manager R.Held
  initialized sender stablecoin amount operator = record (blank_manager R.nobody) {
    upgrader_role = upgrader;
    euro_stablecoin = stablecoin;
    operator_address = operator;
    funding_yearly_amount = amount;
    staking_period_in_blocks = 2_102_400;
    roles = R.grant upgrader sender (R.grant default_admin_role sender R.nobody);
  }

  unfoldable pub initialize : Text → Text → ℕ → Text → T.Money → Outcome Staking
  initialize sender stablecoin amount operator money =
      checked (amount * 1_000_000_000_000_000_000) >=> λ wei.
      done (record { manager = initialized sender stablecoin wei operator; money = money })

  unfoldable pub only_role : Text → Text → Staking → Outcome (Unit {0})
  only_role role sender w =
      require (R.has_role role sender w.manager.roles) (unauthorized sender role)

  unfoldable pub authorize_upgrade : Text → Text → Staking → Outcome Staking
  authorize_upgrade sender implementation w = only_role w.manager.upgrader_role sender w >=> λ _.
      checked (w.manager.version + 1) >=> λ v. done (record w {
        manager = record w.manager { current_base_contract = implementation; version = v };
      })

  -- The assignments of `pay` and of `withdrawToRegistryOperator`.
  abbrev pub with_stake : Text → Text → ℕ → ℕ → ℕ → T.Money → Manager R.Held → Staking
  with_stake sender party amount stake block money m = record {
    manager = record m {
      staked_funds = set party stake m.staked_funds;
      staking_block = set party block m.staking_block;
      log = m.log ++ party_staked sender party amount ∷ [];
    };
    money = money;
  }

  abbrev pub without_stake : Text → T.Money → Manager R.Held → Staking
  without_stake party money m = record {
    manager = record m {
      staked_funds = set party 0 m.staked_funds;
      log = m.log ++ stake_withdrawn party (m.staked_funds party) ∷ [];
    };
    money = money;
  }

  -- `this` is the address of the contract, and `block` the number of the current block.
  module _ (this : Text) (block : ℕ) where
    unfoldable pub pay : Text → Text → Staking → Outcome Staking
    pay sender party w =
        let m = w.manager in
        require (not (ltb 0 (m.staked_funds party))) (thrown (codes "StakeAlreadyDeposited"))
        >=> λ _.
            require
              (not
                (ltb (T.allowance m.euro_stablecoin sender this w.money) m.funding_yearly_amount))
              (thrown (codes "InsufficientAllowance"))
            >=> λ _.
                T.transfer_from m.euro_stablecoin this sender this m.funding_yearly_amount w.money
                >=> λ r. require r.0 (thrown (codes "TransferFailed")) >=> λ _.
                    checked (m.staked_funds party + m.funding_yearly_amount) >=> λ stake.
                    done (with_stake sender party m.funding_yearly_amount stake block r.1 m)

    unfoldable pub withdraw_to_registry_operator : Text → Staking → Outcome Staking
    withdraw_to_registry_operator party w =
        let m = w.manager in
        require (not (m.operator_address == zero_address))
          (thrown_string (codes "Withdrawal account not set"))
        >=> λ _. require (not (m.staked_funds party == 0)) (thrown (codes "NoFundsStaked")) >=> λ _.
            checked (m.staking_block party + m.staking_period_in_blocks) >=> λ end.
            require (not (ltb block end)) (thrown (codes "WithdrawalNotAllowed")) >=> λ _.
            T.transfer m.euro_stablecoin this m.operator_address (m.staked_funds party) w.money
            >=> λ r. require r.0 (thrown (codes "TransferFailed")) >=> λ _.
                done (without_stake party r.1 m)

  unfoldable pub set_operator : Text → Text → Staking → Outcome Staking
  set_operator sender operator w = only_role default_admin_role sender w >=> λ _.
      done (record w { manager = record w.manager { operator_address = operator } })

  unfoldable pub set_funding_yearly_amount : Text → ℕ → Staking → Outcome Staking
  set_funding_yearly_amount sender amount w = only_role default_admin_role sender w >=> λ _.
      checked (amount * 1_000_000_000_000_000_000) >=> λ wei.
      done (record w { manager = record w.manager { funding_yearly_amount = wei } })

  unfoldable pub set_stablecoin_address : Text → Text → Staking → Outcome Staking
  set_stablecoin_address sender stablecoin w = only_role default_admin_role sender w >=> λ _.
      done (record w { manager = record w.manager { euro_stablecoin = stablecoin } })

  unfoldable pub transfer_ownership : Text → Text → Staking → Outcome Staking
  transfer_ownership sender owner w = only_role default_admin_role sender w >=> λ _.
      done (record w {
        manager = record w.manager {
          roles =
              R.revoke default_admin_role sender (R.grant default_admin_role owner w.manager.roles);
          log = w.manager.log ++ ownership_transferred_entry sender owner ∷ [];
        };
      })

  unfoldable pub transact : Text → ℕ → Text → Call → Staking → Outcome Staking
  transact this block sender (paid party) w = pay this block sender party w
  transact this block sender (withdrawn party) w = withdraw_to_registry_operator this block party w
  transact this block sender (operator_set operator) w = set_operator sender operator w
  transact this block sender (yearly_amount_set amount) w =
      set_funding_yearly_amount sender amount w
  transact this block sender (stablecoin_set stablecoin) w =
      set_stablecoin_address sender stablecoin w
  transact this block sender (ownership_transferred owner) w = transfer_ownership sender owner w

  unfoldable pub get_payment_status : Text → Staking → ℕ
  get_payment_status party w =
      if ltb 0 (w.manager.staked_funds party)
      then 1
      else if ltb 0 (w.manager.staking_block party)
      then 2
      else 0

  unfoldable pub get_payment_block : Text → ℕ → Staking → ℕ × ℕ
  get_payment_block party block w = (w.manager.staking_block party, block)

  unfoldable pub get_funding_yearly_amount : Staking → ℕ
  get_funding_yearly_amount w = w.manager.funding_yearly_amount / 1_000_000_000_000_000_000
