-- ===== src/Staking/Client.antt =====
-- The contract as the network that the payment manager's client (src/lib/ocnPaymentManager.ts) talks to.
use mathlib.Core.List.{append_assoc, append-nil}
use native.Mathlib.Nat.{zero-add}
use ocn_registry_v.Base.{
  ◌≡◌, refl, ap, ◌∙◌, arith, ℕ, ◌<◌, false, ◌≤◌, true, some, List, [], ◌∷◌, ◌++◌, nat_eq,
  numbers_eq, ltb, leb,
}
use ocn_registry_v.Text.{Text, codes}
use ocn_registry_v.Client.Failures.{Failure, Decoder}
use ocn_registry_v.Client.Wrapper.{is_done, Outcome, done, failed, Ethers, Wrapper, verify_writable}
use ocn_registry_v.Client.Payments.{
  PaymentCall, paid as pay_sent, withdrawn as withdrawal_sent, PaymentNetwork, payment_up_to_date,
  pay as client_pay, get_payment_status as client_status, submit_payment, payment_status_at,
}
use ocn_registry_v.Contract.State.{set}
use ocn_registry_v.Staking.State.{Tokens, Roles, checked, word, thrown}
use ocn_registry_v.Staking.Operations.{
  Call, paid, withdrawn, Staking, with_stake, pay, transact, get_payment_status,
  get_funding_yearly_amount,
}

-- The transaction of a call of the client.
abbrev pub call_of : PaymentCall → Call
call_of (pay_sent party) = paid party
call_of (withdrawal_sent party) = withdrawn party

module _ (E : Ethers) (D : Decoder) (N : PaymentNetwork) (wrapper : Wrapper) (h : List PaymentCall)
    (party : Text) where
  client_pays :
      wrapper.is_writable ≡ true
      → N.accept h (pay_sent party) ≡ done tt
      → N.wait (h ++ pay_sent party ∷ []) (pay_sent party) ≡ done tt
      → client_pay E D N wrapper party h ≡ (done (pay_sent party), h ++ pay_sent party ∷ [])
  unfolding client_pay submit_payment verify_writable
  client_pays writable taken confirmed = ground (arith, writable, taken, confirmed)

  client_refused :
      {e : Failure}
      → wrapper.is_writable ≡ true
      → N.accept h (pay_sent party) ≡ failed e
      → (is_done (client_pay E D N wrapper party h).0 ≡ false)
        × ((client_pay E D N wrapper party h).1 ≡ h)
  unfolding client_pay submit_payment verify_writable
  client_refused writable refused =
      (ground (arith, writable, refused), ground (arith, writable, refused))

module _ (R : Roles) (T : Tokens) (this : Text) where
  abbrev pub after_call : Outcome (Staking R T) → Staking R T → Staking R T
  after_call (done v) w = v
  after_call (failed e) w = w

  abbrev accepted : Outcome (Staking R T) → Outcome (Unit {0})
  accepted (done v) = done tt
  accepted (failed e) = failed e

  -- The transactions of one sender after some earlier ones, the next of them in the given block.
  module _ (block : List PaymentCall → ℕ) (sender : Text) where
    unfoldable pub run_own : List PaymentCall → List PaymentCall → Staking R T → Staking R T
    run_own earlier [] w = w
    run_own earlier (c ∷ h) w =
        run_own (earlier ++ c ∷ []) h
          (after_call (transact R T this (block earlier) sender (call_of c) w) w)

    run_own-append :
        (earlier h : List PaymentCall) (c : PaymentCall) (w : Staking R T)
        → run_own earlier (h ++ c ∷ []) w
          ≡ after_call
              (transact R T this (block (earlier ++ h)) sender (call_of c) (run_own earlier h w))
              (run_own earlier h w)
    unfolding run_own
    run_own-append earlier [] c w = rw (append-nil earlier) refl
    run_own-append earlier (d ∷ h) c w =
        run_own-append (earlier ++ d ∷ []) h c _ ∙ rw (append_assoc earlier (d ∷ []) h) refl

    -- The network of a client whose transactions are the only ones from some state on.
    abbrev pub network : Staking R T → PaymentNetwork
    network w = record {
      get_payment_status = λ h party. done (some (get_payment_status R T party (run_own [] h w)));
      get_funding_yearly_amount = λ h. done (get_funding_yearly_amount R T (run_own [] h w));
      accept = λ h c. accepted (transact R T this (block h) sender (call_of c) (run_own [] h w));
      wait = λ h c. done tt;
    }

  -- What `pay` does where nothing stands in its way.
  pay_done :
      (block : ℕ) (sender party : Text) (w : Staking R T) (money : T.Money)
      → w.manager.staked_funds party ≡ 0
      → w.manager.funding_yearly_amount ≤ T.allowance w.manager.euro_stablecoin sender this w.money
      → leb word w.manager.funding_yearly_amount ≡ false
      → T.transfer_from w.manager.euro_stablecoin this sender this w.manager.funding_yearly_amount
          w.money
        ≡ done (true, money)
      → pay R T this block sender party w
        ≡ done (
            with_stake R T sender party w.manager.funding_yearly_amount
              w.manager.funding_yearly_amount block money w.manager)
  unfolding pay checked
  pay_done block sender party w money fresh enough small moved =
      let m = w.manager in
      let allowed : ltb (T.allowance m.euro_stablecoin sender this w.money) m.funding_yearly_amount
          ≡ false =
        ground (arith, enough) in
      rw (fresh, allowed, moved, zero-add m.funding_yearly_amount, small) refl

  -- The conditions under which `pay` goes through.
  pub record CanPay (sender party : Text) (w : Staking R T) (money : T.Money) : Type 0 where
    pub fresh : w.manager.staked_funds party ≡ 0
    pub some_amount : 0 < w.manager.funding_yearly_amount
    pub small : leb word w.manager.funding_yearly_amount ≡ false
    pub enough :
        w.manager.funding_yearly_amount ≤ T.allowance w.manager.euro_stablecoin sender this w.money
    pub moved :
        T.transfer_from w.manager.euro_stablecoin this sender this w.manager.funding_yearly_amount
          w.money
        ≡ done (true, money)

  status_paid :
      (block : ℕ) (sender party : Text) (w : Staking R T) (money : T.Money)
      → 0 < w.manager.funding_yearly_amount
      → get_payment_status R T party (
          with_stake R T sender party w.manager.funding_yearly_amount
            w.manager.funding_yearly_amount block money w.manager)
        ≡ 1
  unfolding get_payment_status set
  status_paid block sender party w money some_amount = ground (arith, some_amount)

  pay_again :
      (block : ℕ) (sender party : Text) (w : Staking R T)
      → get_payment_status R T party w ≡ 1
      → pay R T this block sender party w ≡ failed (thrown (codes "StakeAlreadyDeposited"))
  unfolding pay get_payment_status
  pay_again block sender party w up_to_date =
      let staked : ltb 0 (w.manager.staked_funds party) ≡ true = ground (arith, up_to_date) in
      rw staked refl

  module _ (E : Ethers) (D : Decoder) (wrapper : Wrapper) (block : List PaymentCall → ℕ)
      (sender party : Text) (w : Staking R T) where
    sent_after :
        (h : List PaymentCall) (money : T.Money)
        → CanPay sender party (run_own block sender [] h w) money
        → let u = run_own block sender [] h w in
          run_own block sender [] (h ++ pay_sent party ∷ []) w
          ≡ with_stake R T sender party u.manager.funding_yearly_amount
              u.manager.funding_yearly_amount
              (block h)
              money
              u.manager
    unfolding transact
    sent_after h money can =
        run_own-append block sender [] h (pay_sent party) w
        ∙ ap (λ o. after_call o (run_own block sender [] h w))
            (pay_done (block h) sender party (run_own block sender [] h w) money can.fresh
              can.enough can.small can.moved)

    status_after :
        (h : List PaymentCall) (money : T.Money)
        → CanPay sender party (run_own block sender [] h w) money
        → get_payment_status R T party (run_own block sender [] (h ++ pay_sent party ∷ []) w) ≡ 1
    status_after h money can =
        ap (get_payment_status R T party) (sent_after h money can)
        ∙ status_paid (block h) sender party (run_own block sender [] h w) money can.some_amount

    -- Suppose the client has a signer, nobody has a stake for the party, the yearly amount is not zero, and the
    -- signer has the amount and allows the contract to take it. Then `pay` sends its transaction and returns;
    -- after that `getPaymentStatus` says that the payment is up to date, and another `pay` for the party
    -- fails and sends nothing.
    pub pay_once :
        (h : List PaymentCall) (money : T.Money)
        → wrapper.is_writable ≡ true
        → CanPay sender party (run_own block sender [] h w) money
        → let N = network block sender w in
          let h' = h ++ pay_sent party ∷ [] in
          (client_pay E D N wrapper party h ≡ (done (pay_sent party), h'))
          × (client_status E D N wrapper party h' ≡ done (some payment_up_to_date))
          × (is_done (client_pay E D N wrapper party h').0 ≡ false)
          × ((client_pay E D N wrapper party h').1 ≡ h')
    unfolding client_status payment_status_at transact nat_eq
    pay_once h money writable can =
        let h' = h ++ pay_sent party ∷ [] in
        let paid' =
          pay_done (block h) sender party (run_own block sender [] h w) money can.fresh can.enough
            can.small can.moved in
        let again =
          pay_again (block h') sender party (run_own block sender [] h' w)
            (status_after h money can) in
        let up_to_date : client_status E D (network block sender w) wrapper party h'
            ≡ done (some payment_up_to_date) =
          ap (λ n. done (payment_status_at n)) (status_after h money can) in
        let refusal =
          client_refused E D (network block sender w) wrapper h' party writable
            (ap accepted again) in
        (
          client_pays E D (network block sender w) wrapper h party writable (ap accepted paid')
              refl,
          up_to_date,
          refusal.0,
          refusal.1,
        )
