-- ===== src/Staking/Effects.antt =====
-- What a transaction of the payment manager has done if it went through.
use mathlib.Core.Path.{subst}
use ocn_registry_v.Base.{
  ◌≡◌, refl, arith, ◌⊎◌, inl, inr, ap, ◌∙◌, ◌*◌, ℕ, ◌+◌, Bool, true, false, not, ◌∷◌, [], ◌++◌,
  ◌==◌, nat_eq, numbers_eq, ltb,
}
use ocn_registry_v.Text.{Text}
use ocn_registry_v.Client.Failures.{Failure}
use ocn_registry_v.Client.Wrapper.{Outcome, done, failed, ◌>=>◌}
use ocn_registry_v.Client.Types.{zero_address}
use ocn_registry_v.Staking.State.{
  Tokens, Roles, default_admin_role, ownership_transferred_entry, require, checked,
}
use ocn_registry_v.Staking.Operations.{
  Call, paid, withdrawn, operator_set, stablecoin_set, ownership_transferred, yearly_amount_set,
  Staking, with_stake, without_stake, only_role, pay, withdraw_to_registry_operator, set_operator,
  set_funding_yearly_amount, set_stablecoin_address, transfer_ownership, transact,
}

-- What holds of the result, if there is one.
pub data Gives {A : Type 0} (P : A → Type 0) : Outcome A → Type 0 where
  fails : (e : Failure) → Gives P (failed e)
  gives : (a : A) → P a → Gives P (done a)

pub given : {A : Type 0} {P : A → Type 0} {o : Outcome A} {a : A} → Gives P o → o ≡ done a → P a
given {A} {P} (fails e) h = absurd (cc h)
given {A} {P} {a = a} (gives b p) h = subst P (cc h) p

pub after :
    {A B : Type 0} {P : B → Type 0} (m : Outcome A) (f : A → Outcome B)
    → ((a : A) → m ≡ done a → Gives P (f a))
    → Gives P (m >=> f)
after (done a) f h = h a refl
after (failed e) f h = fails e

pub needs :
    {A : Type 0} {P : A → Type 0} (b : Bool) (e : Failure) (o : Outcome A)
    → (b ≡ true → Gives P o)
    → Gives P (require b e >=> λ _. o)
needs true e o h = h refl
needs false e o h = fails e

checked_eq : (n m : ℕ) → checked n ≡ done m → m ≡ n
unfolding checked
checked_eq n m h = ground (arith, h)

none_staked : (n : ℕ) → not (ltb 0 n) ≡ true → n ≡ 0
none_staked n h = ground (arith, h)

of_not : {b : Bool} → not b ≡ true → b ≡ false
of_not {b} h = ground (arith, h)

module _ (R : Roles) (T : Tokens) (this : Text) (block : ℕ) where
  -- Whether a call leaves the stablecoin alone.
  abbrev pub KeepsCoin : Text → Call → Type 0
  KeepsCoin coin (stablecoin_set stablecoin) = stablecoin ≡ coin
  KeepsCoin coin (paid party) = Unit
  KeepsCoin coin (withdrawn party) = Unit
  KeepsCoin coin (operator_set operator) = Unit
  KeepsCoin coin (ownership_transferred owner) = Unit
  KeepsCoin coin (yearly_amount_set amount) = Unit

  -- A stake is put down, a stake is taken out, or all stakes stay as they are.
  pub data Effect (coin sender : Text) (w : Staking R T) : Staking R T → Type 0 where
    put :
        (party : Text) (money : T.Money)
        → w.manager.staked_funds party ≡ 0
        → T.transfer_from w.manager.euro_stablecoin this sender this w.manager.funding_yearly_amount
            w.money
          ≡ done (true, money)
        → Effect coin sender w (
            with_stake R T sender party w.manager.funding_yearly_amount
              w.manager.funding_yearly_amount block money w.manager)
    taken :
        (party : Text) (money : T.Money)
        → (w.manager.staked_funds party == 0) ≡ false
        → (w.manager.operator_address == zero_address) ≡ false
        → ltb block (w.manager.staking_block party + w.manager.staking_period_in_blocks) ≡ false
        → T.transfer w.manager.euro_stablecoin this w.manager.operator_address
            (w.manager.staked_funds party)
            w.money
          ≡ done (true, money)
        → Effect coin sender w (without_stake R T party money w.manager)
    settings :
        (v : Staking R T)
        → v.money ≡ w.money
        → v.manager.staked_funds ≡ w.manager.staked_funds
        → v.manager.staking_block ≡ w.manager.staking_block
        → v.manager.staking_period_in_blocks ≡ w.manager.staking_period_in_blocks
        → (w.manager.euro_stablecoin ≡ coin → v.manager.euro_stablecoin ≡ coin)
        → (v.manager.log ≡ w.manager.log)
          ⊎ ((owner : Text) × (v.manager.log
                ≡ w.manager.log ++ ownership_transferred_entry sender owner ∷ []))
        → Effect coin sender w v

  pair_eq :
      {o : Outcome (Bool × T.Money)} {r : Bool × T.Money}
      → o ≡ done r
      → r.0 ≡ true
      → o ≡ done (true, r.1)
  pair_eq {r = r} h moved = h ∙ ap done (λ i. (moved i, r.1))

  pay_effect :
      (coin sender party : Text) (w : Staking R T)
      → Gives (Effect coin sender w) (pay R T this block sender party w)
  unfolding pay
  pay_effect coin sender party w =
      let m = w.manager in
      needs (not (ltb 0 (m.staked_funds party))) _ _ λ fresh.
        needs
          (not (ltb (T.allowance m.euro_stablecoin sender this w.money) m.funding_yearly_amount)) _
          _
          λ allowed.
            after
              (T.transfer_from m.euro_stablecoin this sender this m.funding_yearly_amount w.money) _
              λ r transferred. needs r.0 _ _ λ moved.
                after (checked (m.staked_funds party + m.funding_yearly_amount)) _ λ stake sum.
                  let none_before : m.staked_funds party ≡ 0 = none_staked _ fresh in
                  let same : stake ≡ m.funding_yearly_amount =
                    omega (arith, checked_eq _ _ sum, none_before) in
                  rw same (gives _ (put party r.1 none_before (pair_eq transferred moved)))

  withdraw_effect :
      (coin sender party : Text) (w : Staking R T)
      → Gives (Effect coin sender w) (withdraw_to_registry_operator R T this block party w)
  unfolding withdraw_to_registry_operator
  withdraw_effect coin sender party w =
      let m = w.manager in
      needs (not (m.operator_address == zero_address)) _ _ λ known.
        needs (not (m.staked_funds party == 0)) _ _ λ staked.
          after (checked (m.staking_block party + m.staking_period_in_blocks)) _ λ end sum.
            needs (not (ltb block end)) _ _ λ over.
              after
                (T.transfer m.euro_stablecoin this m.operator_address (m.staked_funds party)
                  w.money)
                _
                λ r transferred. needs r.0 _ _ λ moved. gives _ (
                  taken party r.1 (of_not staked) (of_not known)
                    (subst (λ e. ltb block e ≡ false) (checked_eq _ _ sum) (of_not over))
                    (pair_eq transferred moved))

  role_effect :
      (coin sender : Text) (w : Staking R T) (o : Outcome (Staking R T))
      → Gives (Effect coin sender w) o
      → Gives (Effect coin sender w) (only_role R T default_admin_role sender w >=> λ _. o)
  unfolding only_role
  role_effect coin sender w o h =
      needs (R.has_role default_admin_role sender w.manager.roles) _ o (λ _. h)

  -- Every transaction that goes through has one of the effects.
  pub transact_effect :
      (coin sender : Text) (c : Call) (w : Staking R T)
      → KeepsCoin coin c
      → Gives (Effect coin sender w) (transact R T this block sender c w)
  unfolding transact set_operator set_funding_yearly_amount set_stablecoin_address
      transfer_ownership
  transact_effect coin sender (paid party) w k = pay_effect coin sender party w
  transact_effect coin sender (withdrawn party) w k = withdraw_effect coin sender party w
  transact_effect coin sender (operator_set operator) w k =
      role_effect coin sender w _ (gives _ (settings _ refl refl refl refl (λ h. h) (inl refl)))
  transact_effect coin sender (yearly_amount_set amount) w k = role_effect coin sender w _ (
      after (checked (amount * 1_000_000_000_000_000_000)) _
        λ wei _. gives _ (settings _ refl refl refl refl (λ h. h) (inl refl)))
  transact_effect coin sender (stablecoin_set stablecoin) w k =
      role_effect coin sender w _ (gives _ (settings _ refl refl refl refl (λ _. k) (inl refl)))
  transact_effect coin sender (ownership_transferred owner) w k =
      role_effect coin sender w _
        (gives _ (settings _ refl refl refl refl (λ h. h) (inr (owner, refl))))
