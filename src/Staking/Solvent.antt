-- ===== src/Staking/Solvent.antt =====
-- The payment manager always holds the stakes that it has to give back.
use mathlib.Core.Path.{subst}
use ocn_registry_v.Base.{
  ◌*◌, ◌≡◌, refl, arith, ℕ, ◌+◌, ◌≤◌, true, false, List, [], ◌∷◌, ◌==◌, numbers_eq, contains,
  Bool-cases, inl, inr, if◌then◌else◌,
}
use ocn_registry_v.Text.{Text}
use ocn_registry_v.Client.Wrapper.{done}
use ocn_registry_v.Contract.Nodes.{HasNoRepeat}
use ocn_registry_v.Contract.State.{set}
use ocn_registry_v.Staking.State.{Tokens, Roles, checked}
use ocn_registry_v.Staking.Operations.{Staking, initialize}
use ocn_registry_v.Staking.Effects.{Gives, gives, given, after, Effect, put, taken, settings}
use ocn_registry_v.Staking.Reached.{Reached, Reached_keeps}

abbrev pub total : (Text → ℕ) → List Text → ℕ
total f [] = 0
total f (p ∷ ps) = f p + total f ps

total-set_absent :
    (p : Text) (v : ℕ) (f : Text → ℕ) (ps : List Text)
    → contains ps p ≡ false
    → total (set p v f) ps ≡ total f ps
unfolding set
total-set_absent p v f [] h = refl
total-set_absent p v f (q ∷ ps) h = ground (arith, h, total-set_absent p v f ps)

total-set_le :
    (p : Text) (v : ℕ) (f : Text → ℕ) (ps : List Text)
    → HasNoRepeat ps
    → total (set p v f) ps ≤ total f ps + v
unfolding set
total-set_le p v f [] h = omega arith
total-set_le p v f (q ∷ ps) h = ground (arith, total-set_le p v f ps h.1, total-set_absent p v f ps)

total-set_zero :
    (p : Text) (f : Text → ℕ) (ps : List Text)
    → HasNoRepeat ps
    → contains ps p ≡ true
    → total (set p 0 f) ps + f p ≡ total f ps
unfolding set
total-set_zero p f [] h k = absurd (cc k)
total-set_zero p f (q ∷ ps) h k =
    ground (arith, k, total-set_zero p f ps h.1, total-set_absent p 0 f ps)

module _ (R : Roles) (T : Tokens) (this coin : Text) where
  -- Whatever parties are picked, each once, the contract's balance covers their stakes.
  pub record IsSolvent (w : Staking R T) : Type 0 where
    pub same_coin : w.manager.euro_stablecoin ≡ coin
    pub covered :
        (parties : List Text)
        → HasNoRepeat parties
        → total w.manager.staked_funds parties ≤ T.balance coin this w.money

  put_covered :
      (w : Staking R T) (sender party : Text) (money : T.Money)
      → (sender == this) ≡ false
      → IsSolvent w
      → T.transfer_from w.manager.euro_stablecoin this sender this w.manager.funding_yearly_amount
          w.money
        ≡ done (true, money)
      → (parties : List Text) → HasNoRepeat parties
      → total (set party w.manager.funding_yearly_amount w.manager.staked_funds) parties
        ≤ T.balance coin this money
  put_covered w sender party money stranger s moved parties once =
      let amount = w.manager.funding_yearly_amount in
      let gained : T.balance coin this money ≡ T.balance coin this w.money + amount =
        subst (λ c. T.balance c this money ≡ T.balance c this w.money + amount) s.same_coin
          (T.transferred_from _ this sender this amount w.money money stranger moved) in
      let before = s.covered parties once in
      omega (arith, total-set_le party amount w.manager.staked_funds parties once)

  -- The stakes of the others are covered by what is left.
  left_over :
      (w : Staking R T) (party : Text)
      → IsSolvent w
      → (parties : List Text) → HasNoRepeat parties
      → total (set party 0 w.manager.staked_funds) parties + w.manager.staked_funds party
        ≤ T.balance coin this w.money
  left_over w party s parties once = elim (Bool-cases (contains parties party)) [
    | inl there ↦
        let before = s.covered parties once in
        omega (arith, total-set_zero party w.manager.staked_funds parties once there)
    | inr absent ↦
        let before = s.covered (party ∷ parties) (absent, once) in
        omega (arith, total-set_absent party 0 w.manager.staked_funds parties absent)
  ]

  taken_covered :
      (w : Staking R T) (party : Text) (money : T.Money)
      → IsSolvent w
      → T.transfer w.manager.euro_stablecoin this w.manager.operator_address
          (w.manager.staked_funds party)
          w.money
        ≡ done (true, money)
      → (parties : List Text) → HasNoRepeat parties
      → total (set party 0 w.manager.staked_funds) parties ≤ T.balance coin this money
  taken_covered w party money s moved parties once =
      let amount = w.manager.staked_funds party in
      let operator = w.manager.operator_address in
      let lost : T.balance coin this money + (if this == operator then 0 else amount)
          ≡ T.balance coin this w.money =
        subst
          (λ c.
            T.balance c this money + (if this == operator then 0 else amount)
            ≡ T.balance c this w.money)
          s.same_coin (T.transferred _ this operator amount w.money money moved) in
      ground (arith, lost, left_over w party s parties once)

  effect-IsSolvent :
      (block : ℕ) (sender : Text) (w v : Staking R T)
      → (sender == this) ≡ false
      → IsSolvent w
      → Effect R T this block coin sender w v
      → IsSolvent v
  effect-IsSolvent block sender w _ stranger s (put party money fresh moved) = record {
    same_coin = s.same_coin;
    covered = put_covered w sender party money stranger s moved;
  }
  effect-IsSolvent block sender w _ stranger s (taken party money staked known over moved) =
      record { same_coin = s.same_coin; covered = taken_covered w party money s moved }
  effect-IsSolvent block sender w v stranger s (settings _ money funds blocks period same log) =
      record { same_coin = same s.same_coin; covered = rw (money, funds) s.covered }

  other-IsSolvent :
      (w : Staking R T) (roles : R.Held) (money : T.Money)
      → T.balance coin this w.money ≤ T.balance coin this money
      → IsSolvent w
      → IsSolvent (record { manager = record w.manager { roles = roles }; money = money })
  other-IsSolvent w roles money more s = record {
    same_coin = s.same_coin;
    covered = λ parties once. let before = s.covered parties once in omega arith;
  }

  total_nothing : (parties : List Text) → total (λ party. 0) parties ≡ 0
  total_nothing [] = refl
  total_nothing (p ∷ parties) = omega (arith, total_nothing parties)

  initialize-IsSolvent :
      (deployer : Text) (amount : ℕ) (operator : Text) (money : T.Money)
      → Gives IsSolvent (initialize R T deployer coin amount operator money)
  unfolding initialize
  initialize-IsSolvent deployer amount operator money =
      after (checked (amount * 1_000_000_000_000_000_000)) _ λ wei _. gives _ (record {
        same_coin = refl;
        covered = λ parties once. omega (arith, total_nothing parties);
      })

  -- From its deployment on, whatever the accounts other than the contract itself call, whenever and in whatever
  -- order, and whatever happens to the tokens and the roles elsewhere that takes no tokens of the stablecoin
  -- from the contract: as long as the stablecoin is not replaced, the contract's balance of it covers the stakes of all parties together.
  pub Reached-IsSolvent :
      (deployer : Text) (amount : ℕ) (operator : Text) (money : T.Money) (start block : ℕ)
      (w v : Staking R T)
      → initialize R T deployer coin amount operator money ≡ done w
      → Reached R T this coin start w block v
      → IsSolvent v
  Reached-IsSolvent deployer amount operator money start block w v deployed reached =
      Reached_keeps R T this coin (λ _. IsSolvent)
        (λ block' sender u u' stranger s e. effect-IsSolvent block' sender u u' stranger s e)
        (λ block' u roles money' more s. other-IsSolvent u roles money' more s)
        (λ block' later u le s. s) reached
        (given (initialize-IsSolvent deployer amount operator money) deployed)
