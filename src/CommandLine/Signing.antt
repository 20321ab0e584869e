-- ===== src/CommandLine/Signing.antt =====
-- The keys that the commands sign with.
use ocn_registry_v.Base.{◌≡◌, ap, refl, Bool, true, false, numbers_eq}
use ocn_registry_v.Text.{Text}
use ocn_registry_v.Client.Failures.{is_full}
use ocn_registry_v.Client.Wrapper.{Outcome, is_done, Wrapper}
use ocn_registry_v.Client.Registry
use ocn_registry_v.Client.Payments
use ocn_registry_v.CommandLine.Arguments.{Machine, Services, Arguments, get_overrides}
use ocn_registry_v.CommandLine.Commands.{
  QueryCommand, ChangeCommand, Command, get_registry_contract_address, get_payment_contract_address,
  list_nodes, get_node, is_node_registered, get_party, is_party_registered, list_parties,
  get_payment_status, get_funding_yearly_amount, get_all_providers, get_provider, find_party, query,
  change, set_node, set_node_raw, delete_node, delete_node_raw, set_party, delete_party, pay,
  withdraw, set_provider, is_signer_registered_as_node, is_signer_registered_as_party,
  get_signer_address, get_ocn_payment_manager, World, set_party_handler, send_party, has_signer,
}
use ocn_registry_v.CommandLine.Handlers.{perform, perform_change, perform_query}

module _ (M : Machine) (V : Services) (a : Arguments) (x : Text)
    (full : is_full M.env_signer ≡ true) where
  ask_with_env :
      (q : QueryCommand) (s : World)
      → perform_query M V (record a { signer = x }) q s ≡ perform_query M V a q s
  unfolding perform_query has_signer get_overrides find_party
  ask_with_env get_registry_contract_address s = refl
  ask_with_env get_payment_contract_address s = refl
  ask_with_env list_nodes s = refl
  ask_with_env (get_node address) s = refl
  ask_with_env (is_node_registered address) s = refl
  ask_with_env is_signer_registered_as_node s = rw full refl
  ask_with_env is_signer_registered_as_party s = rw full refl
  ask_with_env get_signer_address s = rw full refl
  ask_with_env (get_party q) s = refl
  ask_with_env (is_party_registered q) s = refl
  ask_with_env list_parties s = refl
  ask_with_env (get_payment_status address) s = refl
  ask_with_env get_funding_yearly_amount s = refl
  ask_with_env get_ocn_payment_manager s = rw full refl
  ask_with_env (get_all_providers role) s = refl
  ask_with_env (get_provider role country_code party_id) s = refl

  send_with_env :
      (c : ChangeCommand) (s : World)
      → perform_change M V (record a { signer = x }) c s ≡ perform_change M V a c s
  unfolding perform_change get_overrides set_party_handler send_party
  send_with_env (set_node domain) s = rw full refl
  send_with_env (set_node_raw domain) s = rw full refl
  send_with_env delete_node s = rw full refl
  send_with_env delete_node_raw s = rw full refl
  send_with_env (set_party o) s = rw full refl
  send_with_env delete_party s = rw full refl
  send_with_env (pay address) s = rw full refl
  send_with_env (withdraw address) s = rw full refl
  send_with_env (set_provider role country_code party_id tag) s = rw full refl

  -- If the environment has SIGNER, no command depends on the option --signer: what it prints and
  -- sends is the same whatever is given there.
  pub env_signer_first :
      (c : Command) (s : World) → perform M V (record a { signer = x }) c s ≡ perform M V a c s
  unfolding perform
  env_signer_first (query q) s = ap (λ o. (o, s)) (ask_with_env q s)
  env_signer_first (change c) s = send_with_env c s

-- The commands whose client checks for a signer.
abbrev pub is_checked : ChangeCommand → Bool
is_checked (set_provider role country_code party_id tag) = false
is_checked c = true

abbrev Nothing : {A B : Type 0} → Outcome A × B → B → Type 0
Nothing r s = (is_done r.0 ≡ false) × (r.1 ≡ s)
