-- ===== src/Staking/Locked.antt =====
-- How long a stake stays where it is.
use ocn_registry_v.Base.{◌≡◌, refl, ◌∙◌, arith, ℕ, ◌+◌, ◌<◌, nat_eq, numbers_eq}
use ocn_registry_v.Text.{Text}
use ocn_registry_v.Contract.State.{set}
use ocn_registry_v.Staking.State.{Tokens, Roles}
use ocn_registry_v.Staking.Operations.{Staking}
use ocn_registry_v.Staking.Effects.{Effect, put, taken, settings}
use ocn_registry_v.Staking.Reached.{Reached, Reached_keeps}

module _ (R : Roles) (T : Tokens) (this coin party : Text) (amount since period : ℕ) where
  -- The stake of the party, with the block at which it was put down and the period.
  record HasStake (w : Staking R T) : Type 0 where
    same_amount : w.manager.staked_funds party ≡ amount
    same_block : w.manager.staking_block party ≡ since
    same_period : w.manager.staking_period_in_blocks ≡ period

  abbrev IsLocked : ℕ → Staking R T → Type 0
  IsLocked block w = block < since + period → HasStake w

  effect-HasStake :
      (block : ℕ) (sender : Text) (w v : Staking R T)
      → 0 < amount
      → block < since + period
      → HasStake w
      → Effect R T this block coin sender w v
      → HasStake v
  unfolding set
  effect-HasStake block sender w _ some_stake early h (put other money fresh moved) = record {
    same_amount = ground (arith, h.same_amount);
    same_block = ground (arith, h.same_amount, h.same_block);
    same_period = h.same_period;
  }
  effect-HasStake block sender w _ some_stake early h (taken other money staked known over moved) =
      record {
        same_amount = ground (arith, h.same_amount, h.same_block, h.same_period);
        same_block = h.same_block;
        same_period = h.same_period;
      }
  effect-HasStake block sender w v some_stake early h
        (settings _ money funds blocks same coin' log) =
      record {
        same_amount = rw funds h.same_amount;
        same_block = rw blocks h.same_block;
        same_period = same ∙ h.same_period;
      }

-- A stake that was put down stays: as long as the block of its end has not come, whatever the accounts other than
-- the contract itself call, whatever happens to the tokens and the roles elsewhere that takes no tokens of the stablecoin from the contract, and while the
-- stablecoin is not replaced, the party has the same amount staked, from the same block.
pub stake_locked :
    (R : Roles) (T : Tokens) (this coin party : Text) (start block : ℕ) (w v : Staking R T)
    → 0 < w.manager.staked_funds party
    → Reached R T this coin start w block v
    → block < w.manager.staking_block party + w.manager.staking_period_in_blocks
    → (v.manager.staked_funds party ≡ w.manager.staked_funds party)
      × (v.manager.staking_block party ≡ w.manager.staking_block party)
stake_locked R T this coin party start block w v some_stake reached early =
    (kept.same_amount, kept.same_block)
  where
    amount : ℕ
    amount = w.manager.staked_funds party

    since : ℕ
    since = w.manager.staking_block party

    period : ℕ
    period = w.manager.staking_period_in_blocks

    kept : HasStake R T this coin party amount since period v
    kept =
        Reached_keeps R T this coin (IsLocked R T this coin party amount since period)
          (λ block' sender u u' stranger p e early'.
            effect-HasStake R T this coin party amount since period block' sender u u' some_stake
              early' (p early') e)
          (λ block' u roles money more p early'. record {
            same_amount = (p early').same_amount;
            same_block = (p early').same_block;
            same_period = (p early').same_period;
          })
          (λ block' later u le p early'. p (omega arith)) reached
          (λ early'. record { same_amount = refl; same_block = refl; same_period = refl }) early
