-- ===== src/CommandLine/Handlers.antt =====
-- The handler of each command of src/cli.ts, and the exit of the program.
use ocn_registry_v.Base.{◌++◌, ℕ, Option, [], map, not, numbers_eq, if◌then◌else◌, is_some}
use ocn_registry_v.Text.{Text, codes}
use ocn_registry_v.Client.Failures.{is_full}
use ocn_registry_v.Client.Types.{Node, PartyDetails}
use ocn_registry_v.Client.Wrapper.{Outcome, done, failed, ◌>=>◌}
use ocn_registry_v.Client.Registry
use ocn_registry_v.Client.Payments
use ocn_registry_v.Client.Oracle
use ocn_registry_v.CommandLine.Arguments.{
  Machine, Services, Arguments, signer_of, spender_of, new_registry, new_payment_manager,
  new_oracle,
}
use ocn_registry_v.CommandLine.Commands.{
  PartyQuery, QueryCommand, ChangeCommand, Command, query, change, get_registry_contract_address,
  get_payment_contract_address, list_nodes, get_node, is_node_registered,
  is_signer_registered_as_node, is_signer_registered_as_party, get_signer_address, set_node,
  set_node_raw, delete_node, delete_node_raw, get_party, is_party_registered, list_parties,
  set_party, delete_party, get_payment_status, get_funding_yearly_amount, pay, withdraw,
  get_ocn_payment_manager, get_all_providers, get_provider, set_provider, Printed, text, answer,
  nodes, parties, status, amount, provider, providers, World, no_key, text_or, party_or_missing,
  asked, asked_payments, asked_oracle, has_signer, find_party, sends, sends_payment, sends_provider,
  set_party_handler,
}

-- The identifier of a provider in the oracles.
abbrev pub identifier_of : Text → Text → Text
identifier_of country_code party_id = country_code ++ codes " " ++ party_id

pub data Exit : Type 0 where
  success : Printed → Exit
  exited : ℕ → Option Text → Exit

module _ (M : Machine) (V : Services) (a : Arguments) where
  abbrev get_party_handler : PartyQuery → World → Outcome Printed
  get_party_handler q s = (find_party M V a q s.calls >=> λ found. done (party_or_missing found))

  abbrev is_party_registered_handler : PartyQuery → World → Outcome Printed
  is_party_registered_handler q s =
      (find_party M V a q s.calls >=> λ found. done (answer (is_some found)))

  abbrev list_parties_handler : World → Outcome Printed
  list_parties_handler s =
      (asked M V a λ w.
        Registry.get_all_parties V.ethers V.decoder (V.registry w) w s.calls >=> λ all.
        done (parties all))

  abbrev get_payment_status_handler : Text → World → Outcome Printed
  get_payment_status_handler address s =
      (asked_payments M V a λ w.
        Payments.get_payment_status V.ethers V.decoder (V.payments w) w address s.payments
        >=> λ found. done (status found))

  abbrev get_funding_yearly_amount_handler : World → Outcome Printed
  get_funding_yearly_amount_handler s =
      (asked_payments M V a λ w.
        Payments.get_funding_yearly_amount V.ethers V.decoder (V.payments w) w s.payments
        >=> λ found. done (amount found))

  abbrev get_ocn_payment_manager_handler : World → Outcome Printed
  get_ocn_payment_manager_handler s =
      (new_registry M V a (signer_of M V a) a.ocn_registry >=> λ w.
      Registry.get_ocn_payment_manager V.ethers V.decoder (V.registry w) w s.calls >=> λ address.
      done (text address))

  abbrev get_all_providers_handler : Text → World → Outcome Printed
  get_all_providers_handler role s =
      (asked_oracle M V a role
        λ w. Oracle.get_all_providers (V.oracle w) s.added >=> λ all. done (providers all))

  abbrev get_provider_handler : Text → Text → Text → World → Outcome Printed
  get_provider_handler role country_code party_id s =
      (asked_oracle M V a role λ w.
        Oracle.get_provider (V.oracle w) (identifier_of country_code party_id) s.added >=> λ found.
        done (provider found))

  abbrev delete_party_handler : World → Outcome Printed × World
  delete_party_handler s =
      sends M V a (new_registry M V a (signer_of M V a) a.ocn_registry)
        (λ w. Registry.delete_party V.ethers V.decoder (V.registry w) w) s

  abbrev pay_handler : Text → World → Outcome Printed × World
  pay_handler address s =
      sends_payment M V a (new_payment_manager M V a (signer_of M V a) a.ocn_payment_manager)
        (λ w. Payments.pay V.ethers V.decoder (V.payments w) w address) s

  abbrev withdraw_handler : Text → World → Outcome Printed × World
  withdraw_handler address s =
      sends_payment M V a (new_payment_manager M V a (signer_of M V a) [])
        (λ w. Payments.withdraw V.ethers V.decoder (V.payments w) w address) s

  abbrev set_provider_handler : Text → Text → Text → Text → World → Outcome Printed × World
  set_provider_handler role country_code party_id tag s =
      sends_provider M V a (new_oracle M V a role (signer_of M V a))
        (λ w. Oracle.set_provider (V.oracle w) (identifier_of country_code party_id) tag) s

  -- The commands that only ask.
  unfoldable pub perform_query : QueryCommand → World → Outcome Printed
  perform_query get_registry_contract_address s =
      (new_registry M V a [] [] >=> λ w. done (text w.target))
  perform_query get_payment_contract_address s =
      (new_payment_manager M V a [] [] >=> λ w. done (text w.target))
  perform_query (get_node address) s =
      (asked M V a λ w.
        Registry.get_node V.ethers V.decoder (V.registry w) w address s.calls >=> λ node.
        done (text_or (codes "Node operator not listed in registry.") node))
  perform_query list_nodes s =
      (asked M V a λ w.
        Registry.get_all_nodes V.ethers V.decoder (V.registry w) w s.calls >=> λ all.
        done (nodes all))
  perform_query is_signer_registered_as_node s =
      (asked M V a λ w.
        Registry.get_all_nodes V.ethers V.decoder (V.registry w) w s.calls >=> λ all.
        has_signer M V a (map (λ (n : Node). n.operator) all))
  perform_query (is_node_registered address) s =
      (asked M V a λ w.
        Registry.get_node V.ethers V.decoder (V.registry w) w address s.calls >=> λ node.
        done (answer (is_some node)))
  perform_query get_signer_address s =
      (if not (is_full (signer_of M V a))
        then done no_key
        else V.ethers.wallet_of (signer_of M V a) >=> λ wallet. done (text wallet))
  perform_query is_signer_registered_as_party s =
      (asked M V a λ w.
        Registry.get_all_parties V.ethers V.decoder (V.registry w) w s.calls >=> λ all.
        has_signer M V a (map (λ (p : PartyDetails). p.party_address) all))
  perform_query (get_party q) s = get_party_handler q s
  perform_query (is_party_registered q) s = is_party_registered_handler q s
  perform_query list_parties s = list_parties_handler s
  perform_query (get_payment_status address) s = get_payment_status_handler address s
  perform_query get_funding_yearly_amount s = get_funding_yearly_amount_handler s
  perform_query get_ocn_payment_manager s = get_ocn_payment_manager_handler s
  perform_query (get_all_providers role) s = get_all_providers_handler role s
  perform_query (get_provider role country_code party_id) s =
      get_provider_handler role country_code party_id s

  -- The handlers that send transactions.
  unfoldable pub perform_change : ChangeCommand → World → Outcome Printed × World
  perform_change (set_node domain) s =
      sends M V a (new_registry M V a (signer_of M V a) a.ocn_registry)
        (λ w. Registry.set_node V.ethers V.decoder (V.registry w) w domain) s
  perform_change (set_node_raw domain) s =
      sends M V a (new_registry M V a (spender_of M V a) a.ocn_registry)
        (λ w. Registry.set_node_raw V.ethers V.decoder (V.registry w) w domain (signer_of M V a)) s
  perform_change delete_node s =
      sends M V a (new_registry M V a (signer_of M V a) a.ocn_registry)
        (λ w. Registry.delete_node V.ethers V.decoder (V.registry w) w) s
  perform_change delete_node_raw s =
      sends M V a (new_registry M V a (spender_of M V a) a.ocn_registry)
        (λ w. Registry.delete_node_raw V.ethers V.decoder (V.registry w) w (signer_of M V a)) s
  perform_change (set_party o) s =
      sends M V a (new_registry M V a (signer_of M V a) a.ocn_registry) (set_party_handler M V a o)
        s
  perform_change delete_party s = delete_party_handler s
  perform_change (pay address) s = pay_handler address s
  perform_change (withdraw address) s = withdraw_handler address s
  perform_change (set_provider role country_code party_id tag) s =
      set_provider_handler role country_code party_id tag s

  unfoldable pub perform : Command → World → Outcome Printed × World
  perform (query q) s = (perform_query q s, s)
  perform (change c) s = perform_change c s

  -- `.fail`: the error's message is printed, and the program exits with 1.
  unfoldable pub exit_of : Outcome Printed → Exit
  exit_of (done p) = success p
  exit_of (failed e) = exited 1 e.message

  unfoldable pub main : Command → World → Exit × World
  main c s = let r = perform c s in (exit_of r.0, r.1)
