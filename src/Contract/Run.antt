-- ===== src/Contract/Run.antt =====
-- The contract over time, and as the network that the client library talks to.
use ocn_registry_v.Base.{List, [], ◌∷◌}
use ocn_registry_v.Text.{Text}
use ocn_registry_v.Client.Wrapper.{Outcome, done, failed}
use ocn_registry_v.Client.Types.{Call, Network, Signature}
use ocn_registry_v.Contract.State.{State}
use ocn_registry_v.Contract.Operations.{
  Outside, transact, get_party_details_by_address, get_party_details_by_ocpi,
}

-- What is left of a state after a transaction: one that reverts changes nothing.
abbrev pub after_transaction : Outcome State → State → State
after_transaction (done t) s = t
after_transaction (failed e) s = s

module _ (O : Outside) where
  -- The transactions of one sender, while nothing else happens.
  unfoldable pub run_own : Text → List Call → State → State
  run_own sender [] s = s
  run_own sender (c ∷ calls) s = run_own sender calls (after_transaction (transact O sender c s) s)

abbrev pub accepted : Outcome State → Outcome (Unit {0})
accepted (done t) = done tt
accepted (failed e) = failed e

-- The network of a client whose transactions are the only ones from some state on, while what the contract asks
-- of others stays as it is. Gas, nonces and the connection do not fail.
abbrev pub network :
    Outside → Text → (Text → Text → Signature) → (Text → Signature) → Text → State → Network
network O sender sign_node sign_deletion manager s = record {
  get_node = λ h a. done ((run_own O sender h s).node_of a);
  get_node_operators = λ h. done (run_own O sender h s).operators;
  get_party_details_by_address =
      λ h a. done (get_party_details_by_address a (run_own O sender h s));
  get_party_details_by_ocpi = λ h country_code party_id.
      done (get_party_details_by_ocpi O country_code party_id (run_own O sender h s));
  get_parties = λ h. done (run_own O sender h s).parties;
  payment_manager = λ h. done manager;
  accept = λ h c. accepted (transact O sender c (run_own O sender h s));
  wait = λ h c. done tt;
  sign_node = sign_node;
  sign_deletion = sign_deletion;
}
