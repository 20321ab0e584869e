-- ===== src/Tests/Staking.antt =====
-- The payment manager with one token whose owners let it take all they have.
use mathlib.Core.Path.{subst}
use ocn_registry_v.Base.{
  ◌≡◌, refl, arith, some, ℕ, ◌+◌, ◌-◌, Bool, true, false, ◌&&◌, [], ◌∷◌, ◌==◌, nat_eq, numbers_eq,
  leb, if◌then◌else◌,
}
use ocn_registry_v.Text.{Text}
use ocn_registry_v.Client.Wrapper.{Wrapper, is_done, Outcome, done}
use ocn_registry_v.Contract.State.{set}
use ocn_registry_v.Staking.State.{
  Tokens, Roles, checked, default_admin_role, ownership_transferred_entry,
}
use ocn_registry_v.Staking.Operations.{
  paid, Staking, initialized, initialize, with_stake, transact, pay, transfer_ownership, only_role,
  get_payment_status, set_operator, set_stablecoin_address, authorize_upgrade,
}
use ocn_registry_v.Staking.Reached.{Reached, here, next, own}
use ocn_registry_v.Staking.Solvent.{IsSolvent, Reached-IsSolvent}
use ocn_registry_v.Staking.Locked.{stake_locked}
use ocn_registry_v.Staking.Ownership.{upgrade_kept}
use ocn_registry_v.Staking.Client.{pay_once, network, run_own}
use ocn_registry_v.Client.Payments.{
  PaymentNetwork, paid as pay_sent, pay as client_pay, get_payment_status as client_status,
  payment_up_to_date,
}
use ocn_registry_v.Tests.Client.{ethers, decoder, wrapper}

abbrev Balances : Type 0
Balances = Text → ℕ

abbrev moved : Text → Text → ℕ → Balances → Outcome (Bool × Balances)
moved sender receiver amount t =
    if leb amount (t sender)
    then done
        (true, let u = set sender (t sender - amount) t in set receiver (u receiver + amount) u)
    else done (false, t)

by_branch :
    (P : Balances → Type 0) (b : Bool) (x t u : Balances)
    → (b ≡ true → P x)
    → Path
        (Outcome (Bool × Balances))
        (if b then done (true, x) else done (false, t))
        (done (true, u))
    → P u
by_branch P true x t u p h = subst P (payload h) (p refl)
  where
    payload :
        {b c : Bool} {y z : Balances}
        → Path (Outcome (Bool × Balances)) (done (b, y)) (done (c, z))
        → y ≡ z
    payload e = cc
by_branch P false x t u p h = absurd (cc h)

moved_to :
    (sender receiver : Text) (amount : ℕ) (t u : Balances)
    → (sender == receiver) ≡ false
    → moved sender receiver amount t ≡ done (true, u)
    → u receiver ≡ t receiver + amount
unfolding set
moved_to sender receiver amount t u other h =
    by_branch (λ v. v receiver ≡ t receiver + amount) _ _ _ u (λ enough. ground (arith, other)) h

moved_from :
    (sender receiver : Text) (amount : ℕ) (t u : Balances)
    → moved sender receiver amount t ≡ done (true, u)
    → u sender + (if sender == receiver then 0 else amount) ≡ t sender
unfolding set
moved_from sender receiver amount t u h =
    by_branch (λ v. v sender + (if sender == receiver then 0 else amount) ≡ t sender) _ _ _ u
      (λ enough. ground (arith, enough)) h

abbrev one_token : Tokens
one_token = record {
  Money = Balances;
  balance = λ token owner t. t owner;
  allowance = λ token owner spender t. t owner;
  transfer_from = λ token caller sender receiver amount t. moved sender receiver amount t;
  transfer = λ token caller receiver amount t. moved caller receiver amount t;
  transferred_from = λ token caller sender receiver amount t u other h.
      moved_to sender receiver amount t u other h;
  transferred = λ token caller receiver amount t u h. moved_from caller receiver amount t u h;
}

abbrev pub some_roles : Roles
some_roles = record {
  Held = Text → Text → Bool;
  nobody = λ role account. false;
  has_role = λ role account h. h role account;
  grant = λ r a h role account. if role == r && account == a then true else h role account;
  revoke = λ r a h role account. if role == r && account == a then false else h role account;
  has_role-nobody = λ role account. refl;
  has_role-grant = λ r a role account h. refl;
  has_role-revoke = λ r a role account h. refl;
}

-- A party at account 1, the contract at 2, the deployer at 3, the timelock at 4 and the operator at 5.
abbrev pub account : ℕ → Text
account n = n ∷ []

abbrev purse : Balances
purse = set (account 1) 500_000_000_000_000_000_000 (λ owner. 0)

abbrev Chain : Type 0
Chain = Staking some_roles one_token

abbrev amount : ℕ
amount = 100_000_000_000_000_000_000

abbrev fresh_manager : Chain
fresh_manager = record {
  manager = initialized some_roles one_token (account 3) [] amount (account 5);
  money = purse;
}

fresh_runs :
    initialize some_roles one_token (account 3) [] 100 (account 5) purse ≡ done fresh_manager
unfolding initialize checked
fresh_runs = refl

abbrev purse_after : Balances
purse_after =
    let u = set (account 1) (purse (account 1) - amount) purse in
    set (account 2) (u (account 2) + amount) u

abbrev paid_manager : Chain
paid_manager =
    with_stake some_roles one_token (account 1) (account 1) amount amount 7 purse_after
      fresh_manager.manager

paid_runs :
    transact some_roles one_token (account 2) 7 (account 1) (paid (account 1)) fresh_manager
    ≡ done paid_manager
unfolding transact pay checked set numbers_eq
paid_runs = refl

paid_reached : Reached some_roles one_token (account 2) [] 5 fresh_manager 7 paid_manager
unfolding numbers_eq
paid_reached =
    next here (omega arith) (own (account 1) (paid (account 1)) paid_manager refl tt paid_runs)

Reached-IsSolvent_example : IsSolvent some_roles one_token (account 2) [] paid_manager
Reached-IsSolvent_example =
    Reached-IsSolvent some_roles one_token (account 2) [] (account 3) 100 (account 5) purse 5 7
      fresh_manager paid_manager fresh_runs paid_reached

abbrev purse_later : Balances
purse_later =
    let u = set (account 1) (purse_after (account 1) - amount) purse_after in
    set (account 2) (u (account 2) + amount) u

abbrev paid_twice : Chain
paid_twice =
    with_stake some_roles one_token (account 1) (account 6) amount amount 9 purse_later
      paid_manager.manager

paid_twice_runs :
    transact some_roles one_token (account 2) 9 (account 1) (paid (account 6)) paid_manager
    ≡ done paid_twice
unfolding transact pay checked set numbers_eq
paid_twice_runs = refl

paid_twice_reached : Reached some_roles one_token (account 2) [] 7 paid_manager 9 paid_twice
unfolding numbers_eq
paid_twice_reached =
    next here (omega arith) (own (account 1) (paid (account 6)) paid_twice refl tt paid_twice_runs)

stake_locked_example :
    (paid_twice.manager.staked_funds (account 1) ≡ paid_manager.manager.staked_funds (account 1))
    × (paid_twice.manager.staking_block (account 1)
        ≡ paid_manager.manager.staking_block (account 1))
unfolding set numbers_eq
stake_locked_example =
    stake_locked some_roles one_token (account 2) [] (account 1) 7 9 paid_manager paid_twice
      (omega arith) paid_twice_reached (omega arith)

abbrev handed_over : Chain
handed_over = record fresh_manager {
  manager = record fresh_manager.manager {
    roles =
        some_roles.revoke default_admin_role (account 3)
          (some_roles.grant default_admin_role (account 4) fresh_manager.manager.roles);
    log = ownership_transferred_entry (account 3) (account 4) ∷ [];
  };
}

handed_over_runs :
    transfer_ownership some_roles one_token (account 3) (account 4) fresh_manager ≡ done handed_over
unfolding transfer_ownership only_role numbers_eq
handed_over_runs = refl

upgrade_kept_example :
    (is_done (set_operator some_roles one_token (account 3) (account 9) handed_over)
      ≡ (account 3 == account 4))
    × (is_done (set_stablecoin_address some_roles one_token (account 3) (account 9) handed_over)
        ≡ (account 3 == account 4))
    × (is_done (authorize_upgrade some_roles one_token (account 3) (account 9) handed_over)
        ≡ (account 3 == account 3))
unfolding numbers_eq
upgrade_kept_example =
    upgrade_kept some_roles one_token (account 3) [] 100 (account 5) purse (account 4) fresh_manager
      handed_over refl fresh_runs handed_over_runs (account 3) (account 9)

abbrev payer : Wrapper
payer = wrapper (some (account 1)) true

abbrev first_network : PaymentNetwork
first_network = network some_roles one_token (account 2) (λ h. 7) (account 1) fresh_manager

pay_once_example :
    (client_pay ethers decoder first_network payer (account 1) []
      ≡ (done (pay_sent (account 1)), pay_sent (account 1) ∷ []))
    × (client_status ethers decoder first_network payer (account 1) (pay_sent (account 1) ∷ [])
        ≡ done (some payment_up_to_date))
    × (is_done
          (client_pay ethers decoder first_network payer (account 1) (pay_sent (account 1) ∷ [])).0
        ≡ false)
    × ((client_pay ethers decoder first_network payer (account 1) (pay_sent (account 1) ∷ [])).1
        ≡ pay_sent (account 1) ∷ [])
unfolding numbers_eq set run_own
pay_once_example =
    pay_once some_roles one_token (account 2) ethers decoder payer (λ h. 7) (account 1) (account 1)
      fresh_manager [] purse_after refl
      (record {
        fresh = refl;
        some_amount = omega arith;
        small = refl;
        enough = omega arith;
        moved = refl;
      })
