-- ===== src/Subgraph/Update.antt =====
-- scripts/deployment/update-subgraph-yaml.ts, from the parsed files to the manifest that is written.
use ocn_registry_v.Base.{
  ℕ, zero, suc, String, ◌<>◌, Bool, true, false, Option, none, some, List, [], ◌∷◌, ◌==◌, string_eq,
  leb, ltb, truthy, if◌then◌else◌,
}
use ocn_registry_v.Base.Lists.{keep}
use ocn_registry_v.Base.Exec.{Result, ok, err}

pub record DeploymentData : Type 0 where
  pub address : String
  pub block_number : ℕ

-- A parsed deployment file: the address, and what `Number` makes of the receipt's block number where
-- that is there and finite.
pub record DeploymentFile : Type 0 where
  pub address : Option String
  pub block_number : Option ℕ

-- The fields that the script does not read are kept in `others`. A missing name is the empty text.
pub record Source : Type 0 where
  pub address : Option String
  pub start_block : Option ℕ
  pub others : String

pub record DataSource : Type 0 where
  pub name : String
  pub network : Option String
  pub source : Option Source
  pub others : String

pub record Values : Type 0 where
  pub network : String
  pub address : String
  pub start_block : ℕ

infixl 5 ◌>=>◌
unfoldable pub ◌>=>◌ : {A B : Type 0} → Result A → (A → Result B) → Result B
◌>=>◌ (ok a) f = f a
◌>=>◌ (err message) f = err message

-- `x || y` on texts and on numbers
abbrev pub or_text : String → String → String
or_text x y = if truthy x then x else y

abbrev pub or_number : ℕ → ℕ → ℕ
or_number zero y = y
or_number (suc n) y = suc n

abbrev pub address_of : Option DeploymentData → String
address_of none = ""
address_of (some d) = d.address

abbrev pub block_of : Option DeploymentData → ℕ
block_of none = 0
block_of (some d) = d.block_number

abbrev number_or_zero : Option ℕ → ℕ
number_or_zero none = 0
number_or_zero (some n) = n

abbrev pub text_or_empty : Option String → String
text_or_empty none = ""
text_or_empty (some s) = s

unfoldable pub read_deployment : String → Option DeploymentFile → Result (Option DeploymentData)
read_deployment name none = ok none
read_deployment name (some file) =
    if truthy (text_or_empty file.address)
    then ok (
        some (record {
          address = text_or_empty file.address;
          block_number = number_or_zero file.block_number;
        }))
    else err ("Deployment \"" <> (name <> "\" exists but has no address."))

unfoldable pub required : String → String → Option DeploymentData → Result DeploymentData
required name network none =
    err ("Missing deployment file for " <> (name <> (" on network \"" <> (network <> "\"."))))
required name network (some d) = ok d

-- `dataSource.source` as it is after the update.
abbrev pub with_source : Values → Option Source → Source
with_source v none = record {
  address = some v.address;
  start_block = some v.start_block;
  others = "";
}
with_source v (some s) = record s { address = some v.address; start_block = some v.start_block }

-- The first data source of the name, updated in its place.
unfoldable pub set_first : String → Values → List DataSource → Option (List DataSource)
set_first name v [] = none
set_first name v (d ∷ sources) =
    let later : Option (List DataSource) = elim (set_first name v sources) [
      | none ↦ none
      | some rest ↦ some (d ∷ rest)
    ] in
    if d.name == name
    then some
        (record d { network = some v.network; source = some (with_source v d.source) } ∷ sources)
    else later

unfoldable pub update_data_source :
    String → (String × Values) → List DataSource → Result (List DataSource)
update_data_source manifest_name (name, v) sources = elim (set_first name v sources) [
  | none ↦ err ("Datasource \"" <> (name <> ("\" not found in " <> (manifest_name <> "."))))
  | some updated ↦ ok updated
]

unfoldable pub update_all :
    String → List (String × Values) → List DataSource → Result (List DataSource)
update_all manifest_name [] sources = ok sources
update_all manifest_name (update ∷ updates) sources =
    update_data_source manifest_name update sources >=> update_all manifest_name updates

-- `xs.sort((a, b) => a - b)`
abbrev insert_sorted : ℕ → List ℕ → List ℕ
insert_sorted n [] = n ∷ []
insert_sorted n (k ∷ ns) = if leb n k then n ∷ k ∷ ns else k ∷ insert_sorted n ns

abbrev sorted : List ℕ → List ℕ
sorted [] = []
sorted (n ∷ ns) = insert_sorted n (sorted ns)

abbrev head_or_zero : List ℕ → ℕ
head_or_zero [] = 0
head_or_zero (n ∷ ns) = n

unfoldable pub fallback_start_block : List ℕ → ℕ
fallback_start_block blocks = head_or_zero (sorted (keep (λ n. ltb 0 n) blocks))

abbrev pub require : Bool → String → Result (Unit {0})
require true message = ok tt
require false message = err message

-- The five updates, in their order, of the deployments that are there.
abbrev pub updates :
    String
    → (registry payment_manager governor certificate_verifier : DeploymentData)
    → (mock_erc20 euro_stable : Option DeploymentData) → (stablecoin : String) → (fallback : ℕ)
    → List (String × Values)
updates network registry payment_manager governor certificate_verifier mock_erc20 euro_stable
      stablecoin fallback =
    (
      "OCN_Registry_OLI",
      record {
        network = network;
        address = registry.address;
        start_block = or_number registry.block_number fallback;
      },
    )
    ∷ (
      "ERC1967Proxy",
      record {
        network = network;
        address = payment_manager.address;
        start_block = or_number payment_manager.block_number fallback;
      },
    )
    ∷ (
      "EuroStableCoin",
      record {
        network = network;
        address = stablecoin;
        start_block =
            or_number (block_of mock_erc20)
              (or_number (block_of euro_stable) (or_number payment_manager.block_number fallback));
      },
    )
    ∷ (
      "OCNGovernor",
      record {
        network = network;
        address = governor.address;
        start_block = or_number governor.block_number fallback;
      },
    )
    ∷ (
      "OCN_Certificate_Verifier",
      record {
        network = network;
        address = certificate_verifier.address;
        start_block = or_number certificate_verifier.block_number fallback;
      },
    )
    ∷ []
