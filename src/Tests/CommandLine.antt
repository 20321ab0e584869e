-- ===== src/Tests/CommandLine.antt =====
-- The command line with a signer in the environment, on the registry contract.
use ocn_registry_v.Base.{
  ◌≡◌, ◌&&◌, ◌==◌, refl, true, false, some, none, [], ◌∷◌, numbers_eq, nat_eq, if◌then◌else◌,
}
use ocn_registry_v.Base.Lists.{length}
use ocn_registry_v.Base.Dict.{lookup}
use ocn_registry_v.Text.{Text, codes}
use ocn_registry_v.Client.Failures.{new_error}
use ocn_registry_v.Client.Wrapper.{
  done, failed, Wrapper, Provider, create, wallet_for, target_for, rpc_url_of,
}
use ocn_registry_v.Client.Types.{node_set, party_set}
use ocn_registry_v.Client.Payments.{PaymentNetwork, paid, withdrawn, payments_after}
use ocn_registry_v.Client.Oracle.{OracleNetwork}
use ocn_registry_v.Client.Sending.{after}
use ocn_registry_v.Tests.Contract.{one}
use ocn_registry_v.Tests.Staking.{some_roles}
use ocn_registry_v.Contract.Administration.{new_registry}
use ocn_registry_v.Contract.Administered.{run_registry}
use ocn_registry_v.Contract.Run.{run_own, network}
use ocn_registry_v.CommandLine.Arguments.{Machine, Services, Arguments, get_overrides, no_overrides}
use ocn_registry_v.CommandLine.Certificates.{read_all}
use ocn_registry_v.CommandLine.Commands.{
  change, set_node, pay, withdraw, is_signer_registered_as_node, PartyOptions, World, sent, answer,
  set_party_handler,
}
use ocn_registry_v.CommandLine.Handlers.{perform, perform_change, perform_query}
use ocn_registry_v.CommandLine.Signing.{env_signer_first}
use ocn_registry_v.CommandLine.Targets.{client_of, payment_targets}
use ocn_registry_v.CommandLine.Unreadable.{set_party_unreadable}
use ocn_registry_v.CommandLine.Registered.{set_node_registered}
use ocn_registry_v.Tests.Client.{ethers, decoder, wrapper, networks}
use ocn_registry_v.Tests.Contract.{two, outside, sign_node, sign_deletion}

abbrev machine : Text → Machine
machine signer = record {
  env_signer = signer;
  env_spender = [];
  is_absolute = λ name. true;
  in_directory = λ name. name;
  require_network = λ name. done no_overrides;
  read_certificate = λ path. failed (new_error (codes "ENOENT"));
  encode_tuple = λ type values. done [];
  no_role = new_error (codes "invalid BigNumberish value");
  registry_address = λ name. done (codes "0x01");
  payment_address = λ name. done (codes "0x02");
  oracle_address = λ name type. done (codes "0x03");
}

abbrev payment_network : PaymentNetwork
payment_network = record {
  get_payment_status = λ h party. done none;
  get_funding_yearly_amount = λ h. done 1;
  accept = λ h c. done tt;
  wait = λ h c. done tt;
}

abbrev oracle_network : OracleNetwork
oracle_network = record {
  get_provider = λ h identifier. done (record { tag = []; identifier = identifier });
  get_providers = λ h. done h;
  accept = λ h c. done tt;
  wait = λ h c. done tt;
}

abbrev services : Services
services = record {
  ethers = ethers;
  decoder = decoder;
  networks = networks;
  registry = λ w.
      network outside two sign_node sign_deletion []
        (run_registry some_roles [] (new_registry some_roles one [] two)).listings;
  payments = λ w. payment_network;
  oracle = λ w. oracle_network;
}

abbrev arguments : Arguments
arguments = record {
  network = codes "localhost";
  network_file = [];
  signer = [];
  ocn_registry = [];
  ocn_payment_manager = codes "0x05";
  spender = [];
}

abbrev empty : World
empty = record { calls = []; payments = []; added = [] }

abbrev url : Text
url = codes "https://x.org"

env_signer_first_example :
    perform
      (machine two)
      services
      (record arguments { signer = codes "0x09" })
      (change (set_node url))
      empty
    ≡ perform (machine two) services arguments (change (set_node url)) empty
env_signer_first_example =
    env_signer_first (machine two) services arguments (codes "0x09") refl (change (set_node url))
      empty

abbrev provider : Provider
provider = record {
  protocol = codes "http";
  host = codes "localhost";
  port = codes "8545";
  url = none;
}

abbrev client : Text → Wrapper
client = client_of (machine two) services arguments provider no_overrides (codes "0x02") two

payment_targets_example :
    ((perform_change (machine two) services arguments (pay url) empty).1.payments
      ≡ payments_after ethers decoder payment_network (client (codes "0x05")) [] (paid url))
    × ((perform_change (machine two) services arguments (withdraw url) empty).1.payments
        ≡ payments_after ethers decoder payment_network (client (codes "0x02")) [] (withdrawn url))
unfolding get_overrides lookup numbers_eq
payment_targets_example =
    payment_targets (machine two) services arguments provider no_overrides (codes "0x02") two 2 []
      refl refl refl refl refl b'0' (codes "x05") url empty refl refl

abbrev options : PartyOptions
options = record {
  country_code = codes "DE";
  party_id = codes "ABC";
  certificates = codes "emsp.json" ∷ [];
  operator = two;
  name = [];
  url = url;
}

set_party_unreadable_example :
    (set_party_handler (machine two) services arguments options (wrapper (some two) true) []).1 ≡ (
      if true && length (codes "DE") == 2 && length (codes "ABC") == 3 && true && true
      then after ethers decoder
          (services.registry (wrapper (some two) true))
          (wrapper (some two) true)
          []
          (party_set
            (ethers.hexlify (ethers.to_upper (codes "DE")))
            (ethers.hexlify (ethers.to_upper (codes "ABC")))
            []
            two
            []
            url)
      else [])
unfolding read_all
set_party_unreadable_example =
    set_party_unreadable (machine two) services arguments options (wrapper (some two) true) []
      (new_error (codes "ENOENT")) refl

abbrev registry_client : Wrapper
registry_client = record {
  rpc_url = rpc_url_of ethers provider no_overrides;
  wallet = some two;
  is_writable = true;
  target = codes "0x01";
}

set_node_registered_example :
    ((perform (machine two) services arguments (change (set_node url)) empty).0
      ≡ done (sent (node_set url)))
    × (perform_query
          (machine two)
          services
          arguments
          is_signer_registered_as_node
          (perform (machine two) services arguments (change (set_node url)) empty).1
        ≡ done (answer true))
unfolding get_overrides create lookup numbers_eq wallet_for target_for run_registry run_own
set_node_registered_example =
    set_node_registered (machine two) services arguments outside two sign_node sign_deletion []
      some_roles one two [] registry_client
      (record registry_client { wallet = none; is_writable = false }) empty 2 [] url url refl refl
      refl refl refl refl refl refl refl refl refl refl refl
