-- ===== src/Tests/Subgraph.antt =====
-- A manifest with five data sources, pointed at a deployment.
use ocn_registry_v.Base.{
  ◌≡◌, refl, String, none, some, List, [], ◌∷◌, ◌==◌, string_eq, if◌then◌else◌,
}
use ocn_registry_v.Base.Lists.{keep}
use ocn_registry_v.Base.Exec.{ok}
use ocn_registry_v.Subgraph.Update.{
  DataSource, ◌>=>◌, read_deployment, required, fallback_start_block, set_first, update_data_source,
  update_all,
}
use ocn_registry_v.Subgraph.Script.{Files, choose_values, gather, main}
use ocn_registry_v.Subgraph.Pointed.{AreOnNetwork}
use ocn_registry_v.Subgraph.Success.{source_names, main-AreOnNetwork}

abbrev source : String → DataSource
source name = record { name = name; network = none; source = none; others = "" }

abbrev pointed : String → String → DataSource
pointed name address = record {
  name = name;
  network = some "volta";
  source = some (record { address = some address; start_block = some 7; others = "" });
  others = "";
}

abbrev files : Files
files = record {
  deployment = λ name.
      if name == "MockERC20"
      then none
      else if name == "EuroStableCoin"
      then none
      else some (record { address = some "0xa"; block_number = some 7 });
  manifest = some (
      some (
        source "OCN_Registry_OLI"
        ∷ source "ERC1967Proxy"
        ∷ source "EuroStableCoin"
        ∷ source "OCNGovernor"
        ∷ source "OCN_Certificate_Verifier"
        ∷ []));
}

abbrev written : List DataSource
written =
    pointed "OCN_Registry_OLI" "0xa"
    ∷ pointed "ERC1967Proxy" "0xa"
    ∷ pointed "EuroStableCoin" "0xc"
    ∷ pointed "OCNGovernor" "0xa"
    ∷ pointed "OCN_Certificate_Verifier" "0xa"
    ∷ []

written_ok : main files "volta" "0xc" "subgraph.yaml" "subgraph.yaml" ≡ ok written
unfolding main ◌>=>◌ gather read_deployment string_eq required choose_values fallback_start_block
    keep update_all update_data_source set_first
written_ok = refl

main-AreOnNetwork_example : AreOnNetwork "volta" "subgraph.yaml" written source_names
main-AreOnNetwork_example =
    main-AreOnNetwork files "volta" "0xc" "subgraph.yaml" "subgraph.yaml" written written_ok
