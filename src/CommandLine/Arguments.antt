-- ===== src/CommandLine/Arguments.antt =====
-- The options that all commands of src/cli.ts share, and what the machine gives: the environment, the
-- files, and the coding of the contracts' arguments. A text that is not given is empty.
use ocn_registry_v.Base.{Bool, not, Option, none, List, [], if◌then◌else◌}
use ocn_registry_v.Base.Dict.{Dict}
use ocn_registry_v.Text.{Text}
use ocn_registry_v.Client.Failures.{Decoder, Failure, is_full}
use ocn_registry_v.Client.Types.{Network}
use ocn_registry_v.Client.Payments.{PaymentNetwork}
use ocn_registry_v.Client.Oracle.{OracleNetwork}
use ocn_registry_v.Client.Wrapper.{
  Outcome, done, Ethers, Wrapper, Provider, Overrides, create, ◌>=>◌,
}

pub record Arguments : Type 0 where
  pub network : Text
  pub network_file : Text
  pub signer : Text
  pub ocn_registry : Text
  pub ocn_payment_manager : Text
  pub spender : Text

-- A certificate as the JSON file has it: the fields of `certificate` by their names.
pub record JsonCertificate : Type 0 where
  pub role : Text
  pub certificate : Text → Option Text
  pub r : Option Text
  pub s : Option Text
  pub v : Option Text

pub record Machine : Type 0 where
  -- `process.env.SIGNER` and `process.env.SPENDER`
  pub env_signer : Text
  pub env_spender : Text
  pub is_absolute : Text → Bool
  -- `join(process.cwd(), name)`
  pub in_directory : Text → Text
  -- `require` of a network file
  pub require_network : Text → Outcome Overrides
  -- `fs.readFile` of the absolute path, and `JSON.parse`
  pub read_certificate : Text → Outcome JsonCertificate
  -- `ethers.AbiCoder.defaultAbiCoder().encode`, of one tuple of the given type
  pub encode_tuple : Text → List (Option Text) → Outcome Text
  -- what ethers throws for a role that is not a number
  pub no_role : Failure
  -- the `address` in the files of the deployments, by the network
  pub registry_address : Text → Outcome Text
  pub payment_address : Text → Outcome Text
  -- by the network and the type of the oracle
  pub oracle_address : Text → Text → Outcome Text

-- The contracts that a client reaches, by its target, network and signer.
pub record Services : Type 0 where
  pub ethers : Ethers
  pub decoder : Decoder
  pub networks : Dict Text Provider
  pub registry : Wrapper → Network
  pub payments : Wrapper → PaymentNetwork
  pub oracle : Wrapper → OracleNetwork

-- `a || b`
abbrev pub either : Text → Text → Text
either a b = if is_full a then a else b

abbrev pub no_overrides : Overrides
no_overrides = record { protocol = none; host = none; port = none; url = none }

module _ (M : Machine) (V : Services) (a : Arguments) where
  abbrev pub signer_of : Text
  signer_of = either M.env_signer a.signer

  abbrev pub spender_of : Text
  spender_of = either M.env_spender a.spender

  unfoldable pub get_overrides : Outcome Overrides
  get_overrides =
      if not (is_full a.network_file)
      then done no_overrides
      else M.require_network
          (if M.is_absolute a.network_file then a.network_file else M.in_directory a.network_file)

  -- `new Registry(…)`, `new OcnPaymentManagerCli(…)` and `new OracleCli(…)`, with the given key and the
  -- given contract.
  abbrev pub new_registry : Text → Text → Outcome Wrapper
  new_registry key specific = get_overrides >=> λ overrides.
      M.registry_address a.network >=> λ deployed.
      create V.ethers V.networks deployed a.network key overrides specific

  abbrev pub new_payment_manager : Text → Text → Outcome Wrapper
  new_payment_manager key specific = get_overrides >=> λ overrides.
      M.payment_address a.network >=> λ deployed.
      create V.ethers V.networks deployed a.network key overrides specific

  abbrev pub new_oracle : Text → Text → Outcome Wrapper
  new_oracle type key = get_overrides >=> λ overrides.
      M.oracle_address a.network type >=> λ deployed.
      create V.ethers V.networks deployed a.network key overrides []
