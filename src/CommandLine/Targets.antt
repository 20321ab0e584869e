-- ===== src/CommandLine/Targets.antt =====
-- The contracts that the commands pay and withdraw reach.
use ocn_registry_v.Base.{◌≡◌, refl, ℕ, true, some, [], ◌∷◌, numbers_eq}
use ocn_registry_v.Base.Dict.{lookup}
use ocn_registry_v.Text.{Text}
use ocn_registry_v.Client.Wrapper.{
  done, Wrapper, Provider, Overrides, rpc_url_of, create, wallet_for, target_for, verify_address,
}
use ocn_registry_v.Client.Payments.{paid, withdrawn, payments_after, payments_sent}
use ocn_registry_v.CommandLine.Arguments.{
  Machine, Services, Arguments, signer_of, get_overrides, new_payment_manager,
}
use ocn_registry_v.CommandLine.Commands.{pay, withdraw, World}
use ocn_registry_v.CommandLine.Handlers.{perform_change}

module _ (M : Machine) (V : Services) (a : Arguments) (p : Provider) (o : Overrides)
    (deployed wallet : Text) where
  -- A client with a signer for a contract.
  abbrev pub client_of : Text → Wrapper
  client_of target = record {
    rpc_url = rpc_url_of V.ethers p o;
    wallet = some wallet;
    is_writable = true;
    target = target;
  }

  module _ (n : ℕ) (key : Text) (file : get_overrides M V a ≡ done o)
      (manager : M.payment_address a.network ≡ done deployed)
      (known : lookup a.network V.networks ≡ some p) (signer : signer_of M V a ≡ n ∷ key)
      (own : V.ethers.wallet_of (n ∷ key) ≡ done wallet) where
    deployed_client : new_payment_manager M V a (n ∷ key) [] ≡ done (client_of deployed)
    unfolding create wallet_for target_for
    deployed_client = rw (file, manager) (rw (create, known, own) refl)

    specific_client :
        (c : ℕ) (target : Text)
        → V.ethers.is_address (c ∷ target) ≡ true
        → new_payment_manager M V a (n ∷ key) (c ∷ target) ≡ done (client_of (c ∷ target))
    unfolding create wallet_for target_for verify_address
    specific_client c target valid = rw (file, manager) (rw (create, known, own, valid) refl)

    -- If the network is configured, its files can be read, a signer is given whose key is valid, and
    -- --ocn-payment-manager names a valid address, then pay sends its transaction to that contract,
    -- but withdraw sends its own to the contract of the deployments; each of them exactly if that contract's
    -- network takes it.
    pub payment_targets :
        (c : ℕ) (target address : Text) (s : World)
        → a.ocn_payment_manager ≡ c ∷ target
        → V.ethers.is_address (c ∷ target) ≡ true
        → ((perform_change M V a (pay address) s).1.payments
            ≡ payments_after V.ethers V.decoder
                (V.payments (client_of (c ∷ target)))
                (client_of (c ∷ target))
                s.payments
                (paid address))
          × ((perform_change M V a (withdraw address) s).1.payments
              ≡ payments_after V.ethers V.decoder
                  (V.payments (client_of deployed))
                  (client_of deployed)
                  s.payments
                  (withdrawn address))
    unfolding perform_change get_overrides rpc_url_of
    payment_targets c target address s given valid = (
      rw (signer, given)
          (rw (specific_client c target valid)
            (payments_sent V.ethers V.decoder (V.payments (client_of (c ∷ target)))
              (client_of (c ∷ target)) address s.payments).0),
      rw (signer) (
          rw (deployed_client)
            (payments_sent V.ethers V.decoder (V.payments (client_of deployed)) (client_of deployed)
              address s.payments).1),
    )
