-- ===== src/Staking/Reached.antt =====
-- The payment manager over time: its own transactions, and what others do to the tokens and the roles.
use ocn_registry_v.Base.{◌≡◌, false, ℕ, ◌≤◌, ◌==◌, numbers_eq}
use ocn_registry_v.Text.{Text}
use ocn_registry_v.Client.Wrapper.{done}
use ocn_registry_v.Staking.State.{Tokens, Roles}
use ocn_registry_v.Staking.Operations.{Call, Staking, transact}
use ocn_registry_v.Staking.Effects.{KeepsCoin, Effect, given, transact_effect}

module _ (R : Roles) (T : Tokens) (this coin : Text) where
  -- One step at a block: a transaction of anyone but the contract itself, which leaves the stablecoin
  -- alone, or anything that happens elsewhere, as long as it takes no tokens from the contract.
  pub data Step (block : ℕ) (w : Staking R T) : Staking R T → Type 0 where
    own :
        (sender : Text) (c : Call) (v : Staking R T)
        → (sender == this) ≡ false
        → KeepsCoin R T this block coin c
        → transact R T this block sender c w ≡ done v
        → Step block w v
    elsewhere :
        (roles : R.Held) (money : T.Money)
        → T.balance coin this w.money ≤ T.balance coin this money
        → Step block w (record { manager = record w.manager { roles = roles }; money = money })

  -- What is reached from a state, with the block of the last step.
  pub data Reached (start : ℕ) (w : Staking R T) : ℕ → Staking R T → Type 0 where
    here : Reached start w start w
    next :
        {block later : ℕ} {u v : Staking R T}
        → Reached start w block u
        → block ≤ later
        → Step later u v
        → Reached start w later v

  module _ (P : ℕ → Staking R T → Type 0)
      (effect : (block : ℕ) (sender : Text) (w v : Staking R T)
        → (sender == this) ≡ false
        → P block w
        → Effect R T this block coin sender w v
        → P block v)
      (other : (block : ℕ) (w : Staking R T) (roles : R.Held) (money : T.Money)
        → T.balance coin this w.money ≤ T.balance coin this money
        → P block w
        → P block (record { manager = record w.manager { roles = roles }; money = money }))
      (wait : (block later : ℕ) (w : Staking R T) → block ≤ later → P block w → P later w) where
    pub Step_keeps : (block : ℕ) {w v : Staking R T} → Step block w v → P block w → P block v
    Step_keeps block {w} {v} (own sender c _ stranger keeps h) p =
        effect block sender w v stranger p
          (given (transact_effect R T this block coin sender c w keeps) h)
    Step_keeps block {w} (elsewhere roles money more) p = other block w roles money more p

    -- What the effects, the others and time keep is kept.
    pub Reached_keeps :
        {start : ℕ} {w : Staking R T} {block : ℕ} {v : Staking R T}
        → Reached start w block v
        → P start w
        → P block v
    Reached_keeps here p = p
    Reached_keeps (next {block} {later} {u} r le st) p =
        Step_keeps later st (wait block later u le (Reached_keeps r p))
