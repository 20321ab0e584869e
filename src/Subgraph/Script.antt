-- ===== src/Subgraph/Script.antt =====
-- `main` of scripts/deployment/update-subgraph-yaml.ts.
use ocn_registry_v.Base.{ℕ, String, ◌<>◌, Option, some, List, [], ◌∷◌, ltb, truthy, is_some}
use ocn_registry_v.Base.Exec.{Result, ok, err}
use ocn_registry_v.Subgraph.Update.{
  DeploymentData, DeploymentFile, DataSource, Values, ◌>=>◌, or_text, address_of, read_deployment,
  required, fallback_start_block, require, updates, update_all,
}

-- The files, as they parse: the deployments of the network by their names, and the manifest's
-- `dataSources`, where the file and that array are there.
pub record Files : Type 0 where
  pub deployment : String → Option DeploymentFile
  pub manifest : Option (Option (List DataSource))

module _ (files : Files) (network stablecoin_override manifest_name manifest_path : String) where
  abbrev read : String → Result (Option DeploymentData)
  read name = read_deployment name (files.deployment name)

  -- From the choice of the stablecoin to the values of the five updates.
  unfoldable pub choose_values :
      DeploymentData
      → DeploymentData
      → DeploymentData
      → DeploymentData
      → Option DeploymentData
      → Option DeploymentData
      → Result (List (String × Values))
  choose_values registry payment_manager governor certificate_verifier mock_erc20 euro_stable =
      let stablecoin : String =
        or_text stablecoin_override (or_text (address_of mock_erc20) (address_of euro_stable)) in
      let fallback : ℕ =
        fallback_start_block
          (registry.block_number ∷ payment_manager.block_number ∷ governor.block_number ∷ []) in
      require (truthy stablecoin) (
        "Missing stablecoin source for network \""
        <> (network
            <> "\". Pass stablecoin address as third argument or deploy MockERC20/EuroStableCoin."))
      >=> λ _.
          require (ltb 0 fallback)
            ("Unable to determine startBlock from deployment receipts for \"" <> (network <> "\"."))
          >=> λ _. ok (
              updates network registry payment_manager governor certificate_verifier mock_erc20
                euro_stable stablecoin fallback)

  unfoldable pub gather : Result (List (String × Values))
  gather = read "OcnRegistry" >=> λ registry. read "OcnPaymentManager" >=> λ payment_manager.
      read "OcnGovernor" >=> λ governor. read "CertificateVerifier" >=> λ verifier.
      read "MockERC20" >=> λ mock_erc20. read "EuroStableCoin" >=> λ euro_stable.
      required "OcnRegistry" network registry >=> λ r.
      required "OcnPaymentManager" network payment_manager >=> λ p.
      required "OcnGovernor" network governor >=> λ g.
      required "CertificateVerifier" network verifier >=> λ v.
      choose_values r p g v mock_erc20 euro_stable

  abbrev data_sources : Option (Option (List DataSource)) → Result (List DataSource)
  data_sources (some (some sources)) = ok sources
  data_sources _ = err ("Invalid " <> (manifest_name <> " format: dataSources array not found."))

  -- The data sources that are written; nothing is written where it fails.
  unfoldable pub main : Result (List DataSource)
  main =
      require (truthy network)
        "Usage: ts-node scripts/deployment/update-subgraph-yaml.ts <network> [stablecoin-address] [manifest-path]"
      >=> λ _.
          require (is_some files.manifest) (manifest_name <> (" not found at " <> manifest_path))
          >=> λ _. gather >=> λ values.
              data_sources files.manifest >=> λ sources. update_all manifest_name values sources
