-- ===== src/Staking/Ownership.antt =====
-- Who may do what with the payment manager once it was handed over.
use ocn_registry_v.Base.{
  ◌≡◌, refl, arith, ℕ, Bool, true, false, ◌==◌, ◌&&◌, ◌||◌, ◌∙◌, numbers_eq, if◌then◌else◌, ◌*◌,
}
use ocn_registry_v.Text.{Text}
use ocn_registry_v.Client.Wrapper.{done, is_done}
use ocn_registry_v.Staking.State.{Tokens, Roles, default_admin_role, upgrader, checked}
use ocn_registry_v.Staking.Operations.{
  Staking, initialize, only_role, authorize_upgrade, set_operator, set_stablecoin_address,
  transfer_ownership,
}
use ocn_registry_v.Staking.Effects.{Gives, gives, given, after, needs}

module _ (R : Roles) (T : Tokens) where
  abbrev is_admin : Text → Staking R T → Bool
  is_admin account w = R.has_role default_admin_role account w.manager.roles

  abbrev may_upgrade : Text → Staking R T → Bool
  may_upgrade account w = R.has_role w.manager.upgrader_role account w.manager.roles

  -- The admins after the contract was handed over, and the upgraders, which are what they were.
  record IsHandedOver (sender owner : Text) (w v : Staking R T) : Type 0 where
    same_role : v.manager.upgrader_role ≡ w.manager.upgrader_role
    same_version : v.manager.version ≡ w.manager.version
    admins :
        (account : Text)
        → is_admin account v ≡ (
            if account == sender
            then false
            else if account == owner
            then true
            else is_admin account w)
    upgraders :
        (w.manager.upgrader_role == default_admin_role) ≡ false
        → (account : Text) → may_upgrade account v ≡ may_upgrade account w

  transfer_ownership-IsHandedOver :
      (sender owner : Text) (w : Staking R T)
      → Gives (IsHandedOver sender owner w) (transfer_ownership R T sender owner w)
  unfolding transfer_ownership only_role
  transfer_ownership-IsHandedOver sender owner w = needs (is_admin sender w) _ _ λ _.
      gives _ (record {
        same_role = refl;
        same_version = refl;
        admins = λ account.
            let granted = R.grant default_admin_role owner w.manager.roles in
            ground (
              arith,
              R.has_role-revoke default_admin_role sender default_admin_role account granted,
              R.has_role-grant default_admin_role owner default_admin_role account w.manager.roles,
            );
        upgraders = λ other account.
            let granted = R.grant default_admin_role owner w.manager.roles in
            let role = w.manager.upgrader_role in
            ground (
              arith,
              other,
              R.has_role-revoke default_admin_role sender role account granted,
              R.has_role-grant default_admin_role owner role account w.manager.roles,
            );
      })

  record IsInitial (deployer : Text) (w : Staking R T) : Type 0 where
    role : w.manager.upgrader_role ≡ upgrader
    admins : (account : Text) → is_admin account w ≡ (account == deployer)
    upgraders : (account : Text) → may_upgrade account w ≡ (account == deployer)
    first : w.manager.version ≡ 0

  initialize-IsInitial :
      (deployer stablecoin : Text) (amount : ℕ) (operator : Text) (money : T.Money)
      → Gives (IsInitial deployer) (initialize R T deployer stablecoin amount operator money)
  unfolding initialize numbers_eq
  initialize-IsInitial deployer stablecoin amount operator money =
      after (checked (amount * 1_000_000_000_000_000_000)) _ λ wei _. gives _ (record {
        role = refl;
        admins = λ account. roles_at default_admin_role account;
        upgraders = λ account. roles_at upgrader account;
        first = refl;
      })
    where
      roles_at :
          (role account : Text)
          → R.has_role role account
              (R.grant upgrader deployer (R.grant default_admin_role deployer R.nobody))
            ≡ ((role == upgrader || role == default_admin_role) && account == deployer)
      roles_at role account =
          let admin = R.grant default_admin_role deployer R.nobody in
          ground (
            arith,
            R.has_role-grant upgrader deployer role account admin,
            R.has_role-grant default_admin_role deployer role account R.nobody,
            R.has_role-nobody role account,
          )

  -- Suppose an account deploys the payment manager and hands it over to another owner. Then the new owner,
  -- and nobody else, may set the operator and the stablecoin. But it is the account that deployed it which may
  -- still upgrade the contract, to any implementation, and nobody else: the new owner is refused.
  pub upgrade_kept :
      (deployer stablecoin : Text) (amount : ℕ) (operator : Text) (money : T.Money) (owner : Text)
      (w v : Staking R T)
      → (owner == deployer) ≡ false
      → initialize R T deployer stablecoin amount operator money ≡ done w
      → transfer_ownership R T deployer owner w ≡ done v
      → (account address : Text)
      → (is_done (set_operator R T account address v) ≡ (account == owner))
        × (is_done (set_stablecoin_address R T account address v) ≡ (account == owner))
        × (is_done (authorize_upgrade R T account address v) ≡ (account == deployer))
  unfolding set_operator set_stablecoin_address authorize_upgrade only_role checked numbers_eq
  upgrade_kept deployer stablecoin amount operator money owner w v other deployed given' account
        address =
      let first = given (initialize-IsInitial deployer stablecoin amount operator money) deployed in
      let last = given (transfer_ownership-IsHandedOver deployer owner w) given' in
      let role : v.manager.upgrader_role ≡ upgrader = last.same_role ∙ first.role in
      let version : v.manager.version ≡ 0 = last.same_version ∙ first.first in
      let apart : (w.manager.upgrader_role == default_admin_role) ≡ false = rw first.role refl in
      (
        ground (arith, other, last.admins account, first.admins account),
        ground (arith, other, last.admins account, first.admins account),
        ground (arith, version, last.upgraders apart account, first.upgraders account),
      )
